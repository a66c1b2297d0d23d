-- ===== src/Tray/Toggles.antt =====
-- The toggles of vmware_tray/VMWAddOnsTray.cpp: the runners and the watching follow the settings.
use vmware_addons.Base.{
  ℕ, ◌≡◌, ◌≢◌, inl, inr, refl, sym, ◌∙◌, Bool, true, false, ◌&&◌, Bool-cases, Option, none, some,
  Bytes, take, cond, ltb, arith,
}
use vmware_addons.Machine.{Env, Trace, Status, is_ok}
use vmware_addons.Machine.Laws.{Returns, Returns-bind, live}
use vmware_addons.Backdoor.{CoreBackdoor, backdoor_call}
use vmware_addons.Sharing.{get_gui_setting, get_host_clock}
use vmware_addons.Sharing.Settings.{Storage}
use vmware_addons.Sharing.Settings.Sharing.{IsMessage, get_bool-set_bool}
use vmware_addons.Sharing.Filter.{mouse_enabled}
use vmware_addons.Sharing.Clipboard.{Clip, get_host_clipboard}
use vmware_addons.Sharing.Clipboard.Safety.{Answered, get_host_clipboard-Answered}
use vmware_addons.Tray.Polling.{polled}
use vmware_addons.Tray.{
  Desk, Message, Tray, attached_to_window, clip_enabled, clipboard_changed, clipboard_poll,
  clipboard_sharing, clock_poll, enabled, message_received, mouse_sharing, set_clipboard_sharing,
  set_time_synchronization, shrink_disks, store_bool, timesync_enabled, timesync_host, toggled,
}

module _ (s : Storage) (laws : IsMessage s) where
  -- The clipboard is polled and watched just when it is to be shared, and the clock is just when the time is.
  abbrev pub IsConsistent : Tray s → Type 0
  IsConsistent t =
      (t.clipboard_poller ≡ enabled s clip_enabled t)
      × (t.watching ≡ enabled s clip_enabled t)
      × (t.clock_synchronizer ≡ enabled s timesync_enabled t)

  attached-IsConsistent :
      (b : CoreBackdoor) (t : Tray s) → b.in_vmware ≡ true → IsConsistent (attached_to_window s b t)
  unfolding attached_to_window set_clipboard_sharing set_time_synchronization
  attached-IsConsistent b t inside = rw inside (refl, refl, refl)

  -- A setting of one name does not touch another.
  stored :
      (name other : Bytes) (v : Bool) (t : Tray s)
      → other ≢ name
      → (enabled s name (store_bool s name v t) ≡ v)
        × (enabled s other (store_bool s name v t) ≡ enabled s other t)
  stored name other v t ne =
      let (new, rest, closed) = get_bool-set_bool s laws t.settings name other v true ne in
      (new, rest)

  clip-mouse : clip_enabled ≢ mouse_enabled
  clip-mouse e = cc

  time-mouse : timesync_enabled ≢ mouse_enabled
  time-mouse e = cc

  time-clip : timesync_enabled ≢ clip_enabled
  time-clip e = cc

  clip-time : clip_enabled ≢ timesync_enabled
  clip-time e = cc

  mouse-kept :
      (v : Bool) (t : Tray s) → IsConsistent t → IsConsistent (store_bool s mouse_enabled v t)
  mouse-kept v t (poll, watch, clock) =
      let clip = (stored mouse_enabled clip_enabled v t clip-mouse).1 in
      let time = (stored mouse_enabled timesync_enabled v t time-mouse).1 in
      (poll ∙ sym clip, watch ∙ sym clip, clock ∙ sym time)

  clip-kept :
      (v : Bool) (t : Tray s)
      → IsConsistent t
      → IsConsistent (set_clipboard_sharing s v (store_bool s clip_enabled v t))
  unfolding set_clipboard_sharing
  clip-kept v t (poll, watch, clock) =
      let (new, time) = stored clip_enabled timesync_enabled v t time-clip in
      (sym new, sym new, clock ∙ sym time)

  time-kept :
      (v : Bool) (t : Tray s)
      → IsConsistent t
      → IsConsistent (set_time_synchronization s v (store_bool s timesync_enabled v t))
  unfolding set_time_synchronization
  time-kept v t (poll, watch, clock) =
      let (new, clip) = stored timesync_enabled clip_enabled v t clip-time in
      (poll ∙ sym clip, watch ∙ sym clip, sym new)

  either-kept :
      (c : Bool) (t changed : Tray s)
      → IsConsistent changed
      → IsConsistent t
      → IsConsistent (cond c changed t)
  either-kept true t changed h g = h
  either-kept false t changed h g = g

  -- The messages that do not store into the caller's memory.
  abbrev pub is_own : Message → Bool
  is_own (clipboard_changed found behind) = false
  is_own _ = true

  module _ (e : Env) (b : CoreBackdoor) (d : Desk) (stale : Trace → ℕ) where
    get_gui_setting-Returns :
        (setting : ℕ) (u : Trace) → Returns (λ v u'. Unit {0}) (get_gui_setting e b setting u)
    unfolding get_gui_setting backdoor_call
    get_gui_setting-Returns setting u = ground arith

    get_host_clock-Returns : (u : Trace) → Returns (λ v u'. Unit {0}) (get_host_clock e b u)
    unfolding get_host_clock backdoor_call
    get_host_clock-Returns u = ground arith

    toggled-Returns :
        (name : Bytes) (setting : ℕ) (t : Tray s) (u : Trace)
        → Returns (λ v u'. Unit {0}) (toggled s e b d stale name setting t u)
    unfolding toggled
    toggled-Returns name setting t u =
        Returns-bind (λ v u'. Unit {0}) (λ v u'. Unit {0}) (get_gui_setting e b setting) _ u
          (get_gui_setting-Returns setting u) (λ v u' h. tt)

    polled-kept :
        (t : Tray s) (r : Status × Option Clip) (u : Trace)
        → IsConsistent t
        → Returns (λ t' u'. IsConsistent t') (polled e b d stale s t r u)
    polled-kept t (st, none) u h = h
    polled-kept t (st, some c) u h = elim (Bool-cases (is_ok st)) [
      | inr refused ↦ rw refused h
      | inl good ↦ rw good (
          either-kept (d.lock_answer u && d.data_answer u) t
            (record t { clipboard = some (take c.size c.text) }) h h)
    ]

    -- If BMessage keeps its promises, every message but B_CLIPBOARD_CHANGED is handled to its end, and where
    -- the clipboard was polled and watched just when it was to be shared, and the clock just when the
    -- time was, it is so after it.
    pub message_received-IsConsistent :
        (m : Message) (t : Tray s) (u : Trace)
        → is_own m ≡ true
        → IsConsistent t
        → Returns (λ t' u'. IsConsistent t') (message_received s e b d stale m t u)
    unfolding message_received
    message_received-IsConsistent mouse_sharing t u own h =
        Returns-bind (λ v u'. Unit {0}) (λ t' u'. IsConsistent t') (toggled s e b d stale _ _ t) _ u
          (toggled-Returns _ _ t u) (λ v u' z. mouse-kept v t h)
    message_received-IsConsistent clipboard_sharing t u own h =
        Returns-bind (λ v u'. Unit {0}) (λ t' u'. IsConsistent t') (toggled s e b d stale _ _ t) _ u
          (toggled-Returns _ _ t u) (λ v u' z. clip-kept v t h)
    message_received-IsConsistent timesync_host t u own h =
        Returns-bind (λ v u'. Unit {0}) (λ t' u'. IsConsistent t') (toggled s e b d stale _ _ t) _ u
          (toggled-Returns _ _ t u) (λ v u' z. time-kept v t h)
    message_received-IsConsistent clipboard_poll t u own h =
        Returns-bind (Answered (live u)) (λ t' u'. IsConsistent t') (get_host_clipboard e b true) _
          u (get_host_clipboard-Answered e b true u) (λ r u' z. polled-kept t r u' h)
    message_received-IsConsistent clock_poll t u own h =
        Returns-bind (λ v u'. Unit {0}) (λ t' u'. IsConsistent t') (get_host_clock e b) _ u
          (get_host_clock-Returns u)
          (λ v u' z. either-kept (ltb 0 v) t (record t { clock = some v }) h h)
    message_received-IsConsistent shrink_disks t u own h =
        either-kept (d.spawn_answer u) t (record t { cleanup_in_progress = true }) h h
    message_received-IsConsistent (clipboard_changed found behind) t u own h = absurd cc
