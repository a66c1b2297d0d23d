-- ===== src/Backdoor.antt =====
-- shared_sources/VMWCoreBackdoor.{h,cpp}: the VMware backdoor, in the 64-bit user-land build.
-- A register that the call does not pass, and one that holds an address, is 0 here; `movl` cuts to
-- 32 bits.
pub mod Rpc
use vmware_addons.Base.{
  ℕ, ◌%◌, ◌/◌, ◌^◌, Bool, true, false, not, Option, none, some, Bytes, ◌==◌, leb, cond, length,
  take, bit_or, ◌+◌,
}
use vmware_addons.Machine.{
  if◌then◌else◌, Cpu, Env, M, Status, ok, error, not_allowed, sem_created, sem_deleted, pure, emit,
  checked, store, port_in_call, port_out_call, port_in_bytes_call, fault, done, ◌>>=◌, ◌>>◌,
}

-- regs_t
pub record Regs : Type 0 where
  pub eax : ℕ
  pub ecx : ℕ
  pub edx : ℕ
  pub esi : ℕ
  pub edi : ℕ

-- The fields of VMWCoreBackdoor.
pub record CoreBackdoor : Type 0 where
  pub in_vmware : Bool
  pub rpc_opened : Bool
  pub rpc_channel : ℕ
  pub rpc_cookie1 : ℕ
  pub rpc_cookie2 : ℕ
  pub backdoor_access : ℕ

abbrev pub back_magic : ℕ
back_magic = 0x564D5868

abbrev pub back_port : ℕ
back_port = 0x5658

abbrev pub rpc_magic : ℕ
rpc_magic = 0x49435052

abbrev pub rpc_port : ℕ
rpc_port = 0x5658

abbrev pub rpc_port2 : ℕ
rpc_port2 = 0x5659

abbrev pub rpc_open : ℕ
rpc_open = 0x1E

abbrev pub rpc_send_length : ℕ
rpc_send_length = 0x1001E

abbrev pub rpc_get_length : ℕ
rpc_get_length = 0x3001E

abbrev pub rpc_ack : ℕ
rpc_ack = 0x5001E

abbrev pub rpc_close : ℕ
rpc_close = 0x6001E

abbrev pub rpc_ok : ℕ
rpc_ok = 0x10000

abbrev pub rpc_send_l_ok : ℕ
rpc_send_l_ok = 0x810000

abbrev pub rpc_get_l_ok : ℕ
rpc_get_l_ok = 0x830000

abbrev pub back_get_version : ℕ
back_get_version = 0x0A

-- HIGH_BITS, LOW_BITS
abbrev pub high_bits : ℕ → ℕ
high_bits x = x / 2 ^ 16 % 2 ^ 16

abbrev pub low_bits : ℕ → ℕ
low_bits x = x % 2 ^ 16

module _ (e : Env) where
  -- VMWCoreBackdoor::BackdoorCall: `param` goes in and a result comes out in `ebx`, by way of `esi`.
  unfoldable pub backdoor_call : Regs → ℕ → ℕ → M Regs
  backdoor_call regs command param = do
    c ← port_in_call e (record {
      eax = back_magic;
      ebx = param % 2 ^ 32;
      ecx = command;
      edx = back_port;
      esi = param;
      edi = 0;
      ebp = 0;
    })
    pure (record regs { eax = c.eax; esi = c.ebx % 2 ^ 32; ecx = c.ecx; edx = c.edx })

  -- VMWCoreBackdoor::BackdoorRPCCall: here `ebx` is passed by way of `eax`.
  unfoldable pub backdoor_rpc_call : CoreBackdoor → ℕ → ℕ → M Regs
  backdoor_rpc_call b command param = do
    c ← port_in_call e (record {
      eax = back_magic;
      ebx = param % 2 ^ 32;
      ecx = command;
      edx = bit_or b.rpc_channel rpc_port;
      esi = b.rpc_cookie1;
      edi = b.rpc_cookie2;
      ebp = 0;
    })
    pure (record { eax = c.ebx % 2 ^ 32; ecx = c.ecx; edx = c.edx; esi = c.esi; edi = c.edi })

  -- VMWCoreBackdoor::BackdoorRPCSend: `ecx` bytes are read from `message`.
  unfoldable pub backdoor_rpc_send : CoreBackdoor → Bytes → ℕ → M Regs
  backdoor_rpc_send b message n = do
    bytes ← checked (cond (leb n (length message)) (some (take n message)) none)
    c ←
        port_out_call e
          (record {
            eax = back_magic;
            ebx = 0x10000;
            ecx = n;
            edx = bit_or b.rpc_channel rpc_port2;
            esi = 0;
            edi = b.rpc_cookie2;
            ebp = b.rpc_cookie1 % 2 ^ 32;
          })
          bytes
    pure (record { eax = c.ebx % 2 ^ 32; ecx = c.ecx; edx = c.edx; esi = c.esi; edi = c.edi })

  -- VMWCoreBackdoor::BackdoorRPCGet: `ecx` bytes are written at the start of `buffer`.
  unfoldable pub backdoor_rpc_get : CoreBackdoor → Bytes → ℕ → M (Regs × Bytes)
  backdoor_rpc_get b buffer n = do
    (c, bytes) ← port_in_bytes_call e (record {
      eax = back_magic;
      ebx = 0x10000;
      ecx = n;
      edx = bit_or b.rpc_channel rpc_port2;
      esi = b.rpc_cookie1;
      edi = 0;
      ebp = b.rpc_cookie2 % 2 ^ 32;
    })
    buffer' ← store buffer 0 bytes
    pure (
      record { eax = c.ebx % 2 ^ 32; ecx = c.ecx; edx = c.edx; esi = c.esi; edi = c.edi },
      buffer',
    )

  -- VMWCoreBackdoor::OpenRPCChannel
  unfoldable pub open_rpc_channel : CoreBackdoor → M (Status × CoreBackdoor)
  unfolding backdoor_rpc_call
  open_rpc_channel b =
      if not b.in_vmware
      then pure (not_allowed, b)
      else if b.rpc_opened
      then pure (error, b)
      else do
        let cleared = record b { rpc_channel = 0; rpc_cookie1 = 0; rpc_cookie2 = 0 }
        regs ← backdoor_rpc_call cleared rpc_open rpc_magic
        if not (regs.ecx == rpc_ok)
            then pure (error, cleared)
            else pure (
              ok,
              record cleared {
                rpc_opened = true;
                rpc_channel = regs.edx;
                rpc_cookie1 = regs.esi;
                rpc_cookie2 = regs.edi;
              },
            )

  -- VMWCoreBackdoor::CloseRPCChannel
  unfoldable pub close_rpc_channel : CoreBackdoor → M (Status × CoreBackdoor)
  unfolding backdoor_rpc_call
  close_rpc_channel b =
      if not b.in_vmware
      then pure (not_allowed, b)
      else if not b.rpc_opened
      then pure (error, b)
      else do
        regs ← backdoor_rpc_call b rpc_close 0
        if not (regs.ecx == rpc_ok)
            then pure (error, b)
            else pure (ok, record b { rpc_opened = false })
