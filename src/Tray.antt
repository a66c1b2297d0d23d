-- ===== src/Tray.antt =====
-- vmware_tray/VMWAddOnsTray.cpp: what the icon in the Deskbar does with its messages: the toggles of the
-- menu, the clipboard in both directions, the clock and the start of the disk cleanup. Windows, drawing and
-- the text of the menu are not modelled.
pub mod Polling
pub mod Toggles
pub mod Cleanup
pub mod Volumes
use vmware_addons.Base.{
  ℕ, Bool, true, false, not, ◌&&◌, Option, none, some, Bytes, List, [], ◌∷◌, ◌++◌, ltb, cond,
  length, take,
}
use vmware_addons.Machine.{
  Env, M, Trace, Status, is_ok, pure, ask, free, if◌then◌else◌, ◌>>=◌, ◌>>◌,
}
use vmware_addons.Backdoor.{CoreBackdoor}
use vmware_addons.Sharing.{
  clip_board_sharing, get_gui_setting, get_host_clock, pointer_grab_ungrab, time_sync,
}
use vmware_addons.Sharing.Clipboard.{Clip, get_host_clipboard, set_host_clipboard}
use vmware_addons.Sharing.Settings.{Settings, State, Storage, get_bool, set_bool}
use vmware_addons.Sharing.Filter.{mouse_enabled}

-- "clip_enabled"
abbrev pub clip_enabled : Bytes
clip_enabled = 99 ∷ 108 ∷ 105 ∷ 112 ∷ 95 ∷ 101 ∷ 110 ∷ 97 ∷ 98 ∷ 108 ∷ 101 ∷ 100 ∷ []

-- "timesync_enabled"
abbrev pub timesync_enabled : Bytes
timesync_enabled =
    116 ∷ 105 ∷ 109 ∷ 101 ∷ 115 ∷ 121 ∷ 110 ∷ 99 ∷ 95 ∷ 101 ∷ 110 ∷ 97 ∷ 98 ∷ 108 ∷ 101 ∷ 100 ∷ []

-- What the system clipboard and the kernel answer: whether it can be locked, whether it has a message, and
-- whether a thread can be made.
pub record Desk : Type 0 where
  pub lock_answer : Trace → Bool
  pub data_answer : Trace → Bool
  pub spawn_answer : Trace → Bool

-- The messages that the icon handles; B_CLIPBOARD_CHANGED with the text that is found in the clipboard, and
-- with the memory that follows it.
pub data Message : Type 0 where
  mouse_sharing clipboard_sharing timesync_host clipboard_poll clock_poll shrink_disks : Message
  clipboard_changed : Option Bytes → Bytes → Message

module _ (s : Storage) where
  -- VMWAddOnsTray with gSettings: which runners and which watching there are, fCleanupInProgress, the
  -- system's clipboard and the time that its clock was last set to.
  pub record Tray : Type 0 where
    pub settings : State s
    pub clipboard_poller : Bool
    pub watching : Bool
    pub clock_synchronizer : Bool
    pub cleanup_in_progress : Bool
    pub clipboard : Option Bytes
    pub clock : Option ℕ

  -- VMWAddOnsTray::SetClipboardSharing
  unfoldable pub set_clipboard_sharing : Bool → Tray → Tray
  set_clipboard_sharing enable t = record t { clipboard_poller = enable; watching = enable }

  -- VMWAddOnsTray::SetTimeSynchronization
  unfoldable pub set_time_synchronization : Bool → Tray → Tray
  set_time_synchronization enable t = record t { clock_synchronizer = enable }

  -- gSettings.GetBool(name, true)
  abbrev pub enabled : Bytes → Tray → Bool
  enabled name t = get_bool s (t.settings.0) name true

  -- gSettings.SetBool(name, value)
  abbrev pub store_bool : Bytes → Bool → Tray → Tray
  store_bool name value t = record t { settings = set_bool s t.settings name value }

  -- The part of AttachedToWindow behind the colours.
  unfoldable pub attached_to_window : CoreBackdoor → Tray → Tray
  unfolding set_clipboard_sharing set_time_synchronization
  attached_to_window b t =
      cond b.in_vmware
        (set_time_synchronization (enabled timesync_enabled t)
          (set_clipboard_sharing (enabled clip_enabled t) t))
        t

  module _ (e : Env) (b : CoreBackdoor) (d : Desk) (stale : Trace → ℕ) where
    -- The new value of a toggle: the opposite one, but only what the host has enabled too.
    unfoldable pub toggled : Bytes → ℕ → Tray → M Bool
    toggled name setting t = do
      on_host ← get_gui_setting e b setting
      pure (not (enabled name t) && on_host)

    -- VMWAddOnsTray::MessageReceived
    unfoldable pub message_received : Message → Tray → M Tray
    unfolding toggled
    message_received mouse_sharing t = do
      value ← toggled mouse_enabled pointer_grab_ungrab t
      pure (store_bool mouse_enabled value t)
    message_received clipboard_sharing t = do
      value ← toggled clip_enabled clip_board_sharing t
      pure (set_clipboard_sharing value (store_bool clip_enabled value t))
    message_received timesync_host t = do
      value ← toggled timesync_enabled time_sync t
      pure (set_time_synchronization value (store_bool timesync_enabled value t))
    message_received (clipboard_changed found behind) t = do
      locked ← ask d.lock_answer
      has_data ← ask d.data_answer
      if not (locked && has_data) then pure t else elim found [
        | none ↦ pure t
        | some text ↦ do
          sent ← set_host_clipboard e b stale (some (text ++ behind)) (length text)
          pure t
      ]
    message_received clipboard_poll t = do
      (status, clip) ← get_host_clipboard e b true
      elim clip [
        | none ↦ pure t
        | some c ↦ if not (is_ok status) then pure t else do
          locked ← ask d.lock_answer
          has_data ← ask d.data_answer
          freed_ ← free
          pure (cond (locked && has_data) (record t { clipboard = some (take c.size c.text) }) t)
      ]
    message_received clock_poll t = do
      value ← get_host_clock e b
      pure (cond (ltb 0 value) (record t { clock = some value }) t)
    message_received shrink_disks t = do
      made ← ask d.spawn_answer
      pure (cond made (record t { cleanup_in_progress = true }) t)
