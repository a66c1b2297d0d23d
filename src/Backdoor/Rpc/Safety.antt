-- ===== src/Backdoor/Rpc/Safety.antt =====
-- SendAndGet's accesses to its buffer, and what it sends.
use vmware_addons.Base.{
  ℕ, ◌^◌, ◌%◌, ◌≡◌, ◌≢◌, ◌≤◌, ◌<◌, ◌⊎◌, false, Bytes, [], ◌∷◌, some, get_elem?, write_at-elem,
  arith, length, take, write_at-is_some, write_at-length_or,
}
use vmware_addons.Machine.{Env, Trace, Cpu, fault, is_ok}
use vmware_addons.Machine.Laws.{Returns, sent, length-tabulate}
use vmware_addons.Backdoor.{CoreBackdoor, rpc_ok}
use vmware_addons.Backdoor.Rpc.{
  Reply, send_command, receive_data, confirm, receive_reply, send_and_get,
}

-- The host announces no reply that would fill the whole buffer.
abbrev pub LeavesRoom : Env → ℕ → Type 0
LeavesRoom e size = (t : Trace) (c : Cpu) → (e.port_in_answer t c).ebx % 2 ^ 32 ≢ size

-- Nothing goes out, or one message.
abbrev pub SendsOnly : Bytes → Trace → Trace → Type 0
SendsOnly msg t t' = (sent t' ≡ sent t) ⊎ (sent t' ≡ msg ∷ sent t)

-- Not accepted, or shorter than the buffer with a 0 behind it.
abbrev pub Accepted : ℕ → Reply → Type 0
Accepted size reply =
    (is_ok reply.status ≡ false)
    ⊎ ((reply.size < size) × (get_elem? reply.buffer reply.size ≡ some 0))

module _ (e : Env) (b : CoreBackdoor) where
  send_command-Returns :
      (message : Bytes) (n : ℕ) (t : Trace)
      → n ≤ length message
      → Returns
          (λ _ t'. (sent t' ≡ sent t) ⊎ (sent t' ≡ take n message ∷ sent t))
          (send_command e b message n t)
  unfolding send_command
  send_command-Returns message n t h = ground arith

  abbrev Received : Bytes → ℕ → Trace → Reply → Trace → Type 0
  Received buffer n t reply t' =
      (sent t' ≡ sent t)
      × (length reply.buffer ≡ length buffer)
      × (reply.size ≡ n)
      × ((is_ok reply.status ≡ false) ⊎ (get_elem? reply.buffer n ≡ some 0))

  confirm-Returns :
      (filled : Bytes) (n reply_id : ℕ) (t : Trace)
      → n < length filled
      → Returns (Received filled n t) (confirm e b filled n reply_id t)
  unfolding confirm
  confirm-Returns filled n reply_id t h = ground (
    arith,
    write_at-is_some filled n (0 ∷ []),
    write_at-length_or filled n (0 ∷ []),
    write_at-elem filled n 0,
  )

  receive_data-Returns :
      (buffer : Bytes) (n reply_id : ℕ) (t : Trace)
      → n < length buffer
      → Returns (Received buffer n t) (receive_data e b buffer n reply_id t)
  unfolding receive_data
  receive_data-Returns buffer n reply_id t h =
      grind (arith, write_at-is_some, write_at-length_or, length-tabulate, confirm-Returns)

  receive_reply-Returns :
      (buffer : Bytes) (n : ℕ) (t : Trace)
      → LeavesRoom e (length buffer)
      → Returns
          (λ reply t'.
            (sent t' ≡ sent t)
            × (length reply.buffer ≡ length buffer)
            × Accepted (length buffer) reply)
          (receive_reply e b buffer n (length buffer) t)
  unfolding receive_reply
  receive_reply-Returns buffer n t room = grind (arith, receive_data-Returns, room)

  -- With a buffer of the announced size and a command inside it, SendAndGet never reads or writes
  -- outside the buffer, if the host announces no reply of just that size. It sends the command or
  -- nothing, keeps the buffer's size, and a reply that it accepts is shorter than the buffer.
  pub send_and_get-Returns :
      (buffer : Bytes) (n : ℕ) (t : Trace)
      → n ≤ length buffer
      → LeavesRoom e (length buffer)
      → Returns
          (λ reply t'.
            SendsOnly (take n buffer) t t'
            × (length reply.buffer ≡ length buffer)
            × Accepted (length buffer) reply)
          (send_and_get e b buffer n (length buffer) t)
  unfolding send_and_get
  send_and_get-Returns buffer n t h room =
      grind (arith, send_command-Returns, receive_reply-Returns)

  confirm-fault :
      (filled : Bytes) (n reply_id : ℕ) (t : Trace)
      → n ≡ length filled
      → confirm e b filled n reply_id t ≡ fault
  unfolding confirm
  confirm-fault filled n reply_id t h = ground (arith, write_at-is_some filled n (0 ∷ []))

  -- A reply of exactly the buffer's size, once the host has delivered it, makes SendAndGet write its
  -- terminator outside the buffer.
  pub receive_full-faults :
      (buffer : Bytes) (reply_id : ℕ) (t : Trace)
      → ((t' : Trace) (c : Cpu) → (e.port_in_bytes_answer t' c).ebx % 2 ^ 32 ≡ rpc_ok)
      → receive_data e b buffer (length buffer) reply_id t ≡ fault
  unfolding receive_data
  receive_full-faults buffer reply_id t delivered =
      grind (arith, delivered, write_at-is_some, write_at-length_or, length-tabulate, confirm-fault)
