-- ===== src/Examples/Remote.antt =====
-- Examples of the calls to the host.
use vmware_addons.Base.{
  ◌≡◌, refl, true, false, Bytes, List, [], ◌∷◌, ◌++◌, some, length, replicate, arith, write_at,
  read_at,
}
use vmware_addons.Machine.{tabulate, Trace, Outcome, done, fault, panic, ok}
use vmware_addons.Machine.Laws.{Returns, held, unguarded}
use vmware_addons.Backdoor.Rpc.{
  Reply, send_command, confirm, receive_data, receive_reply, send_and_get, send_message,
  finish_send, check_response, get_message, get_message_data,
}
use vmware_addons.Backdoor.Rpc.Locking.{rpc-locking}
use vmware_addons.Backdoor.Rpc.Safety.{
  send_and_get-Returns, receive_full-faults, SendsOnly, Accepted,
}
use vmware_addons.Folders.{Attributes, OpenMode}
use vmware_addons.Folders.Files.{read_file, read_file_pieces}
use vmware_addons.Folders.Locking.{Holds}
use vmware_addons.Folders.Sessions.Locking.{run-locking}
use vmware_addons.Folders.Sessions.{
  AllServed, Call, Roomy, closes_dir, closes_file, creates_dir, deletes, gets_attributes, moves,
  opens_dir, opens_file, reads_dir, reads_file, run, run_all, run_all-Served, sets_attributes,
  writes_file,
}
use vmware_addons.Folders.Safety.{Called, command}
use vmware_addons.Folders.Transfers.{AtMost, read_file-Returns}
use vmware_addons.Examples.{host, open_backdoor, mounted, mounted-IsValid, mounted_64-LeavesRoom}

abbrev docs : Bytes
docs = b'd' ∷ b'o' ∷ b'c' ∷ b's' ∷ []

abbrev notes : Bytes
notes = docs ++ (b'/' ∷ b'n' ∷ [])

abbrev reading : OpenMode
reading = record { access = 0; trunc = false; creat = false; excl = false }

abbrev attributes : Attributes
attributes = record { size = 3; cr_time = 0; a_time = 0; m_time = 0; c_time = 0; perms = 6 }

abbrev buffer : Bytes
buffer = docs ++ replicate 60 0

abbrev trace_of {ℓ} : {A : Type ℓ} → Outcome A → Trace
trace_of (done a t) = t
trace_of fault = []
trace_of panic = []

abbrev value_of {ℓ} : {A : Type ℓ} → A → Outcome A → A
value_of d (done a t) = a
value_of d fault = d
value_of d panic = d

abbrev got : Outcome Reply
got = send_and_get host open_backdoor buffer 4 64 []

abbrev empty_reply : Reply
empty_reply = record { status = ok; buffer = []; size = 0 }

abbrev after_get : Trace
after_get = trace_of got

abbrev after_send : Trace
after_send = trace_of (send_message host open_backdoor (some docs) true 4 after_get)

rpc-locking_example :
    (held 5 after_get ≡ 0)
    × (unguarded 5 after_get ≡ 0)
    × (held 5 after_send ≡ 0)
    × (unguarded 5 after_send ≡ 0)
unfolding send_and_get send_message send_command receive_reply receive_data confirm finish_send
    check_response get_message get_message_data write_at read_at tabulate
rpc-locking_example =
    rpc-locking host open_backdoor buffer (some docs) true 4 64 (value_of empty_reply got) ok []
      after_get after_send refl refl

send_and_get_example :
    Returns
      (λ reply t'. SendsOnly docs [] t' × (length reply.buffer ≡ 64) × Accepted 64 reply)
      (send_and_get host open_backdoor buffer 4 64 [])
send_and_get_example =
    send_and_get-Returns host open_backdoor buffer 4 [] (omega arith) mounted_64-LeavesRoom

receive_full_example : receive_data host open_backdoor docs 4 1 [] ≡ fault
receive_full_example = receive_full-faults host open_backdoor docs 1 [] (λ t' c. refl)

read_file_example :
    Returns
      (λ r t'. Called (mounted 64) (command (read_file_pieces 7 0 4)) [] r t' × AtMost 4 r.out)
      (read_file host (mounted 64) 7 0 4 [])
read_file_example =
    read_file-Returns host (mounted 64) (mounted-IsValid 64) mounted_64-LeavesRoom 7 0 4 []
      (omega arith)

abbrev calls : List Call
calls =
    opens_file docs reading
    ∷ reads_file 7 0 4
    ∷ writes_file 7 0 docs
    ∷ closes_file 7
    ∷ opens_dir docs
    ∷ reads_dir 7 0 256 256
    ∷ closes_dir 7
    ∷ creates_dir docs 7
    ∷ gets_attributes docs
    ∷ sets_attributes docs attributes 1
    ∷ deletes docs true
    ∷ moves docs notes
    ∷ []

calls-Roomy : Roomy 64 calls
calls-Roomy = ground arith

run_all-Served_example :
    Returns (AllServed (mounted 64) calls []) (run_all host (mounted 64) calls [])
run_all-Served_example =
    run_all-Served host (mounted 64) calls [] (mounted-IsValid 64) mounted_64-LeavesRoom calls-Roomy

run-locking_example : Holds 6 0 (run host (mounted 64) (writes_file 7 0 notes) [])
run-locking_example = run-locking host (mounted 64) (writes_file 7 0 notes) [] (ground arith)
