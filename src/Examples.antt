-- ===== src/Examples.antt =====
-- Examples: a host that takes every command and answers each with a reply of 14 bytes, an object for
-- the shared folders, and a tree with the file `docs/notes`.
mod Remote
mod Hooks
mod Commands
mod Sharing
mod Screen
mod Disks
mod Display
mod Volumes
use vmware_addons.Base.{
  ℕ, ◌≡◌, ◌≢◌, ◌%◌, ◌^◌, refl, Bool, true, false, Bytes, ◌==◌, List, [], ◌∷◌, some, none, cond,
  length, replicate, length-replicate, arith, if◌then◌else◌,
}
use vmware_addons.Machine.{Env, Cpu, Trace, ok}
use vmware_addons.Backdoor.{
  CoreBackdoor, back_magic, rpc_open, rpc_send_length, rpc_get_length, rpc_ok, rpc_send_l_ok,
  rpc_get_l_ok, back_get_version,
}
use vmware_addons.Backdoor.Rpc.Safety.{LeavesRoom}
use vmware_addons.Folders.{Folders}
use vmware_addons.Folders.Safety.{IsValid}

abbrev pub blank : Cpu
blank = record { eax = 0; ebx = 0; ecx = 0; edx = 0; esi = 0; edi = 0; ebp = 0 }

abbrev pub answer : ℕ → Cpu
answer command =
    if command == back_get_version
    then record blank { ebx = back_magic }
    else if command == rpc_send_length
    then record blank { ecx = rpc_send_l_ok }
    else if command == rpc_get_length
    then record blank { ebx = 14; ecx = rpc_get_l_ok }
    else record blank { ecx = rpc_ok }

abbrev pub host : Env
host = record {
  port_in_answer = λ t c. answer c.ecx;
  port_out_answer = λ t c bs. record blank { ebx = rpc_ok };
  port_in_bytes_answer = λ t c. record blank { ebx = rpc_ok };
  byte_answer = λ t c i. cond (i == 0) b'1' (cond (i == 10) 7 0);
  acquire_answer = λ t s. ok;
  create_sem_answer = λ t. (ok, 5);
  malloc_answer = λ t n. true;
  user_memcpy_answer = λ t n. ok;
  vnode_answer = λ t i. ok;
  time_answer = λ t. 0;
  port_crashes = false;
}

abbrev pub open_backdoor : CoreBackdoor
open_backdoor = record {
  in_vmware = true;
  rpc_opened = true;
  rpc_channel = 0;
  rpc_cookie1 = 1;
  rpc_cookie2 = 2;
  backdoor_access = 5;
}

abbrev pub mounted : ℕ → Folders
mounted size = record {
  backdoor = open_backdoor;
  init_check = ok;
  lock = 6;
  rpc_buffer = replicate size 0;
  rpc_buffer_size = size;
}

pub host-LeavesRoom : (size : ℕ) → back_magic ≢ size → 14 ≢ size → 0 ≢ size → LeavesRoom host size
host-LeavesRoom size a b c t regs = ground arith

pub mounted-IsValid : (size : ℕ) → IsValid (mounted size)
mounted-IsValid size = length-replicate size 0

pub mounted_64-LeavesRoom : LeavesRoom host 64
mounted_64-LeavesRoom = host-LeavesRoom 64 (ground arith) (ground arith) (ground arith)
