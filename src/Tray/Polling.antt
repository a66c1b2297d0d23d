-- ===== src/Tray/Polling.antt =====
-- CLIPBOARD_POLL and B_CLIPBOARD_CHANGED of vmware_tray/VMWAddOnsTray.cpp: the clipboard in both
-- directions.
use vmware_addons.Base.{
  ℕ, ◌<◌, ◌≤◌, ◌≡◌, ◌⊎◌, inl, inr, refl, true, not, ◌&&◌, Option, none, some, Bytes, [], ◌∷◌, ◌++◌,
  append-nil, cond, length, take, take-append_length, arith,
}
use vmware_addons.Machine.{
  Env, M, Trace, Status, is_ok, fault, free, ask, pure, if◌then◌else◌, ◌>>=◌,
}
use vmware_addons.Machine.Laws.{Returns, Returns-bind, live}
use vmware_addons.Backdoor.{CoreBackdoor}
use vmware_addons.Sharing.Settings.{Storage}
use vmware_addons.Sharing.Clipboard.{Clip, get_host_clipboard, set_host_clipboard, max_clip_length}
use vmware_addons.Sharing.Clipboard.Words.{IsText}
use vmware_addons.Sharing.Clipboard.Receive.{Received, Serves, get_host_clipboard-text}
use vmware_addons.Sharing.Clipboard.Safety.{Answered, get_host_clipboard-Answered}
use vmware_addons.Sharing.Clipboard.Send.{set_host_clipboard-faults}
use vmware_addons.Tray.{Desk, Tray, clipboard_changed, clipboard_poll, message_received}

bind-fault :
    {A : Type 0} {B : Type 0} (m : M A) (k : A → M B) (t : Trace)
    → m t ≡ fault
    → (m >>= k) t ≡ fault
bind-fault m k t h = rw (◌>>=◌, h) refl

module _ (e : Env) (b : CoreBackdoor) (d : Desk) (stale : Trace → ℕ) (s : Storage) where
  -- The handler behind GetHostClipboard.
  abbrev pub polled : Tray s → Status × Option Clip → M (Tray s)
  polled t (status, none) = pure t
  polled t (status, some c) = if not (is_ok status) then pure t else do
    locked ← ask d.lock_answer
    has_data ← ask d.data_answer
    freed_ ← free
    pure (cond (locked && has_data) (record t { clipboard = some (take c.size c.text) }) t)

  poll-live :
      (t : Tray s) (blocks : ℕ) (r : Status × Option Clip) (u : Trace)
      → Answered blocks r u
      → Returns (λ t' u'. live u' ≡ blocks) (polled t r u)
  poll-live t blocks (st, none) u (refused, mem) = mem
  poll-live t blocks (st, some c) u (good, str, inside, small, mem) = rw good (omega arith)

  -- Whatever the host, the clipboard and the allocator answer, CLIPBOARD_POLL ends without an access outside
  -- memory, and frees the block that it got.
  clipboard_poll-live :
      (t : Tray s) (u : Trace)
      → Returns (λ t' u'. live u' ≡ live u) (message_received s e b d stale clipboard_poll t u)
  unfolding message_received
  clipboard_poll-live t u =
      Returns-bind (Answered (live u)) (λ t' u'. live u' ≡ live u) (get_host_clipboard e b true) _ u
        (get_host_clipboard-Answered e b true u) (λ r u' h. poll-live t (live u) r u' h)

  -- If the host has a text of 1 to 65436 characters in its clipboard and gives its length and then its words
  -- in order, and the system's clipboard can be locked and has a message, CLIPBOARD_POLL in VMware puts
  -- just that text there, or finds no memory and changes nothing.
  pub clipboard_poll-text :
      (t : Tray s) (u : Trace) (text : Bytes)
      → Serves e text
      → IsText text
      → b.in_vmware ≡ true
      → 0 < length text
      → length text ≤ max_clip_length
      → ((v : Trace) → (d.lock_answer v ≡ true) × (d.data_answer v ≡ true))
      → Returns
          (λ t' u'. (t' ≡ record t { clipboard = some text }) ⊎ (t' ≡ t))
          (message_received s e b d stale clipboard_poll t u)
  unfolding message_received
  clipboard_poll-text t u text serves chars inside some_ fits free_ =
      Returns-bind (λ r u'. Received text r)
        (λ t' u'. (t' ≡ record t { clipboard = some text }) ⊎ (t' ≡ t))
        (get_host_clipboard e b true) _ u
        (get_host_clipboard-text e b text u serves chars inside some_ fits) go
    where
      go :
          (r : Status × Option Clip) (v : Trace)
          → Received text r
          → Returns (λ t' u'. (t' ≡ record t { clipboard = some text }) ⊎ (t' ≡ t)) (polled t r v)
      go (st, c) v (inl (good, found)) =
          let taken : take (length text) (text ++ (0 ∷ [])) ≡ text =
            take-append_length text (0 ∷ []) in
          rw (found, good, (free_ v).0, (free_ v).1, taken) (inl refl)
      go (st, c) v (inr (bad, nothing)) = rw nothing (inr refl)

  -- In VMware, with a clipboard that can be locked and has a message, B_CLIPBOARD_CHANGED writes outside its
  -- memory for every text that is not empty, where no byte of memory follows the text in the message.
  pub clipboard_changed-faults :
      (t : Tray s) (u : Trace) (text : Bytes)
      → b.in_vmware ≡ true
      → 0 < length text
      → d.lock_answer u ≡ true
      → d.data_answer u ≡ true
      → message_received s e b d stale (clipboard_changed (some text) []) t u ≡ fault
  unfolding message_received
  clipboard_changed-faults t u text inside some_ lock data_ =
      rw (lock, data_, append-nil text)
        (bind-fault (set_host_clipboard e b stale (some text) (length text)) (λ sent. pure t) u
          (set_host_clipboard-faults e b stale text u inside some_))
