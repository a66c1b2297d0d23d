-- ===== src/Backdoor/Rpc/Balance.antt =====
-- SendAndGet and the memory allocated: it keeps the number of live blocks.
use vmware_addons.Base.{ℕ, ◌≡◌, Bytes, arith}
use vmware_addons.Machine.{Env, Trace, Outcome}
use vmware_addons.Machine.Laws.{live, at_end}
use vmware_addons.Backdoor.{CoreBackdoor}
use vmware_addons.Backdoor.Rpc.{send_command, confirm, receive_data, receive_reply, send_and_get}

-- Where the run ends, as many blocks are live as before.
abbrev pub Kept {ℓ} : {A : Type ℓ} → Trace → Outcome A → Type 0
Kept t o = at_end live (live t) o ≡ live t

module _ (e : Env) (b : CoreBackdoor) where
  send_command-Kept : (message : Bytes) (n : ℕ) (t : Trace) → Kept t (send_command e b message n t)
  unfolding send_command
  send_command-Kept message n t = ground arith

  confirm-Kept :
      (filled : Bytes) (n reply_id : ℕ) (t : Trace) → Kept t (confirm e b filled n reply_id t)
  unfolding confirm
  confirm-Kept filled n reply_id t = ground arith

  receive_data-Kept :
      (buffer : Bytes) (n reply_id : ℕ) (t : Trace) → Kept t (receive_data e b buffer n reply_id t)
  unfolding receive_data
  receive_data-Kept buffer n reply_id t = grind (arith, confirm-Kept)

  receive_reply-Kept :
      (buffer : Bytes) (n size : ℕ) (t : Trace) → Kept t (receive_reply e b buffer n size t)
  unfolding receive_reply
  receive_reply-Kept buffer n size t = grind (arith, receive_data-Kept)

  pub send_and_get-Kept :
      (buffer : Bytes) (n size : ℕ) (t : Trace) → Kept t (send_and_get e b buffer n size t)
  unfolding send_and_get
  send_and_get-Kept buffer n size t = grind (arith, send_command-Kept, receive_reply-Kept)
