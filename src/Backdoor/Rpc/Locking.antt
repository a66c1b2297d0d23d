-- ===== src/Backdoor/Rpc/Locking.antt =====
-- The backdoor semaphore: what SendMessage, SendAndGet and GetMessage do to it.
use vmware_addons.Base.{ℕ, ◌-◌, ◌≡◌, ◌<◌, Bool, Option, Bytes, ◌∷◌, arith}
use vmware_addons.Machine.{Env, Trace, Status, Outcome, done, released}
use vmware_addons.Machine.Laws.{at_end, held, unguarded}
use vmware_addons.Backdoor.{CoreBackdoor}
use vmware_addons.Backdoor.Rpc.{
  Reply, send_command, receive_data, confirm, receive_reply, send_and_get, get_message_data,
  get_message, check_response, finish_send, send_message,
}

module _ (e : Env) (b : CoreBackdoor) where
  -- A run from `t` ends with the semaphore held as often as given, and has run no port instruction
  -- while the semaphore was free.
  abbrev Ends {ℓ} : {A : Type ℓ} → ℕ → Trace → Outcome A → Type 0
  Ends h t o =
      (at_end (held b.backdoor_access) h o ≡ h)
      × (at_end (unguarded b.backdoor_access) (unguarded b.backdoor_access t) o
          ≡ unguarded b.backdoor_access t)

  send_command-Ends :
      (message : Bytes) (n : ℕ) (t : Trace)
      → 0 < held b.backdoor_access t
      → Ends (held b.backdoor_access t) t (send_command e b message n t)
  unfolding send_command
  send_command-Ends message n t p = ground arith

  confirm-Ends :
      (filled : Bytes) (n reply_id : ℕ) (t : Trace)
      → 0 < held b.backdoor_access t
      → Ends (held b.backdoor_access t - 1) t (confirm e b filled n reply_id t)
  unfolding confirm
  confirm-Ends filled n reply_id t p = ground arith

  receive_data-Ends :
      (buffer : Bytes) (n reply_id : ℕ) (t : Trace)
      → 0 < held b.backdoor_access t
      → Ends (held b.backdoor_access t - 1) t (receive_data e b buffer n reply_id t)
  unfolding receive_data
  receive_data-Ends buffer n reply_id t p = grind (arith, confirm-Ends)

  receive_reply-Ends :
      (buffer : Bytes) (n buffer_length : ℕ) (t : Trace)
      → 0 < held b.backdoor_access t
      → Ends (held b.backdoor_access t - 1) t (receive_reply e b buffer n buffer_length t)
  unfolding receive_reply
  receive_reply-Ends buffer n buffer_length t p = grind (arith, receive_data-Ends)

  send_and_get-Ends :
      (buffer : Bytes) (n buffer_length : ℕ) (t : Trace)
      → Ends (held b.backdoor_access t) t (send_and_get e b buffer n buffer_length t)
  unfolding send_and_get
  send_and_get-Ends buffer n buffer_length t = grind (arith, send_command-Ends, receive_reply-Ends)

  get_message_data-Ends :
      (n reply_id : ℕ) (t : Trace)
      → 0 < held b.backdoor_access t
      → Ends (held b.backdoor_access t - 1) t (get_message_data e b n reply_id t)
  unfolding get_message_data
  get_message_data-Ends n reply_id t p = ground arith

  get_message-Ends : (t : Trace) → Ends (held b.backdoor_access t) t (get_message e b t)
  unfolding get_message
  get_message-Ends t = grind (arith, get_message_data-Ends)

  check_response-Ends : (t : Trace) → Ends (held b.backdoor_access t) t (check_response e b t)
  unfolding check_response
  check_response-Ends t = grind (arith, get_message-Ends t)

  finish_send-Ends :
      (check_status taken : Bool) (t : Trace)
      → 0 < held b.backdoor_access t
      → Ends (held b.backdoor_access t - 1) t (finish_send e b check_status taken t)
  unfolding finish_send
  finish_send-Ends check_status taken t p =
      ground (arith, check_response-Ends (released b.backdoor_access ∷ t))

  send_message-Ends :
      (message : Option Bytes) (check_status : Bool) (n : ℕ) (t : Trace)
      → Ends (held b.backdoor_access t) t (send_message e b message check_status n t)
  unfolding send_message
  send_message-Ends message check_status n t = grind (arith, send_command-Ends, finish_send-Ends)

  -- However SendAndGet and SendMessage end, the backdoor semaphore is held as often as before the
  -- call, and no port instruction of theirs ran while it was free.
  pub rpc-locking :
      (buffer : Bytes) (message : Option Bytes) (check_status : Bool) (n buffer_length : ℕ)
      (reply : Reply) (status : Status) (t t' t'' : Trace)
      → send_and_get e b buffer n buffer_length t ≡ done reply t'
      → send_message e b message check_status n t' ≡ done status t''
      → (held b.backdoor_access t' ≡ held b.backdoor_access t)
        × (unguarded b.backdoor_access t' ≡ unguarded b.backdoor_access t)
        × (held b.backdoor_access t'' ≡ held b.backdoor_access t)
        × (unguarded b.backdoor_access t'' ≡ unguarded b.backdoor_access t)
  rpc-locking buffer message check_status n buffer_length reply status t t' t'' p q = ground (
    arith,
    send_and_get-Ends buffer n buffer_length t,
    send_message-Ends message check_status n t',
  )
