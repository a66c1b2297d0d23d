-- ===== src/Tray/Volumes.antt =====
-- vmware_tray/VMWAddOnsSelectWindow.cpp, which volumes are cleaned, and ThreadLoop and Start of
-- VMWAddOnsCleanup.cpp with StartShrink of VMWAddOnsTray.cpp, what is done with them. A list view keeps its items
-- in the order in which they are added; what of it the user has selected comes with the message.
pub mod Choosing
pub mod Removing
pub mod Cleaning
use vmware_addons.Base.{
  ℕ, zero, suc, ◌+◌, Bool, true, false, not, ◌&&◌, Option, none, some, Bytes, List, [], ◌∷◌, ◌++◌,
  ◌==◌, ltb, cond, length, get_elem?, take, drop,
}
use vmware_addons.Machine.{
  Env, M, Status, ok, error, interrupted, is_ok, pure, if◌then◌else◌, ◌>>=◌,
}
use vmware_addons.Backdoor.{CoreBackdoor, open_rpc_channel, close_rpc_channel}
use vmware_addons.Backdoor.Rpc.{send_message}
use vmware_addons.Sharing.Filter.{is_interrupted}
use vmware_addons.Tray.Cleanup.{Deeds, Volume, fill_directory}

-- What a BVolume says of itself.
pub record VolumeInfo : Type 0 where
  pub device : ℕ
  pub init_ok : Bool
  pub is_persistent : Bool
  pub is_removable : Bool
  pub is_read_only : Bool

-- The test that a volume is written to, but for InitCheck.
abbrev pub is_writable : VolumeInfo → Bool
is_writable v = v.is_persistent && not v.is_removable && not v.is_read_only

-- The loop over the volume roster in the constructor of VMWAddOnsSelectWindow.
unfoldable pub list_volumes : List VolumeInfo → List VolumeInfo
list_volumes [] = []
list_volumes (v ∷ vs) = cond (is_writable v) (v ∷ list_volumes vs) (list_volumes vs)

-- The messages of the window: a volume that was mounted or a device that was unmounted, where the message has
-- it; the clean-up with the selection, by the positions of its items; and Cancel.
pub data WindowMessage : Type 0 where
  device_mounted : Option VolumeInfo → WindowMessage
  device_unmounted : Option ℕ → WindowMessage
  cleanup_selection : List ℕ → WindowMessage
  cancel_operation another_message : WindowMessage

-- The items of the list, and what the cleanup is given: fToCleanup with fDevicesCount.
pub record SelectWindow : Type 0 where
  pub items : List VolumeInfo
  pub to_cleanup : List ℕ
  pub closed : Bool

-- VMWAddOnsSelectWindow::VMWAddOnsSelectWindow
abbrev pub new_window : List VolumeInfo → SelectWindow
new_window vs = record { items = list_volumes vs; to_cleanup = []; closed = false }

abbrev pub remove_at : ℕ → List VolumeInfo → List VolumeInfo
remove_at i items = take i items ++ drop (i + 1) items

-- The loop that removes the items of a device from position `i` on; an item behind a removed one is not looked
-- at. With as many rounds as items there are enough.
unfoldable pub remove_device : ℕ → ℕ → ℕ → List VolumeInfo → List VolumeInfo
remove_device zero i device items = items
remove_device (suc left) i device items = elim (get_elem? items i) [
  | none ↦ items
  | some v ↦ remove_device left (i + 1) device (cond (v.device == device) (remove_at i items) items)
]

-- The loop that fills fToCleanup, until it finds no item.
unfoldable pub fill_to_cleanup : List ℕ → List VolumeInfo → List ℕ
fill_to_cleanup [] items = []
fill_to_cleanup (i ∷ is) items = elim (get_elem? items i) [
  | none ↦ []
  | some v ↦ v.device ∷ fill_to_cleanup is items
]

-- VMWAddOnsSelectWindow::MessageReceived
unfoldable pub window_received : WindowMessage → SelectWindow → SelectWindow
unfolding remove_device fill_to_cleanup
window_received (device_mounted none) w = w
window_received (device_mounted (some v)) w =
    cond (v.init_ok && is_writable v) (record w { items = w.items ++ (v ∷ []) }) w
window_received (device_unmounted none) w = w
window_received (device_unmounted (some d)) w = record w {
  items = remove_device (length w.items) 0 d w.items;
}
window_received (cleanup_selection []) w = record w { to_cleanup = [] }
window_received (cleanup_selection (i ∷ is)) w = record w {
  to_cleanup = fill_to_cleanup (i ∷ is) w.items;
  closed = true;
}
window_received cancel_operation w = record w { closed = true }
window_received another_message w = w

-- The messages of the window, up to the one that closes it.
unfoldable pub receive_all : List WindowMessage → SelectWindow → SelectWindow
unfolding window_received
receive_all [] w = w
receive_all (m ∷ ms) w = cond w.closed w (receive_all ms (window_received m w))

-- `look` is what a volume says of itself when it is its turn, `disk` what happens to the files on it.
module _ (look : ℕ → Deeds → VolumeInfo) (disk : ℕ → Volume) where
  -- The loop of ThreadLoop: the volumes that were cleaned with their results, in order, and the deeds.
  unfoldable pub clean_all : List ℕ → Status → Deeds → Option (List (ℕ × Status) × Deeds)
  clean_all [] stale h = some ([], h)
  clean_all (d ∷ ds) stale h =
      let v : VolumeInfo = look d h in
      let skipped : Option (List (ℕ × Status) × Deeds) = clean_all ds stale h in
      cond (not (v.init_ok && is_writable v)) skipped (elim (fill_directory (disk d) stale h) [
        | none ↦ none
        | some (st, h') ↦
            let rest : Option (List (ℕ × Status) × Deeds) = clean_all ds stale h' in
            cond (is_interrupted st) (some ((d, st) ∷ [], h'))
              (elim rest [ none ↦ none | some (rs, h'') ↦ some ((d, st) ∷ rs, h'') ])
      ])

  -- VMWAddOnsCleanup::ThreadLoop, with what the window has given; the buffer has its memory.
  unfoldable pub thread_loop : List ℕ → Status → Deeds → Option (Status × List (ℕ × Status) × Deeds)
  unfolding clean_all
  thread_loop [] stale h = some (interrupted, [], h)
  thread_loop (d ∷ ds) stale h = elim (clean_all (d ∷ ds) stale h) [
    | none ↦ none
    | some (rs, h') ↦ some (ok, rs, h')
  ]

-- "disk.shrink"
abbrev pub disk_shrink : Bytes
disk_shrink = 100 ∷ 105 ∷ 115 ∷ 107 ∷ 46 ∷ 115 ∷ 104 ∷ 114 ∷ 105 ∷ 110 ∷ 107 ∷ []

-- The buttons of the first alert; Escape is Cancel.
pub data Choice : Type 0 where
  cancel shrink_now clean_up : Choice

module _ (e : Env) where
  -- VMWAddOnsTray::StartShrink
  unfoldable pub start_shrink : CoreBackdoor → M CoreBackdoor
  start_shrink b = do
    opens ← open_rpc_channel e b
    if not (is_ok opens.0) then pure opens.1 else do
      sent ← send_message e opens.1 (some disk_shrink) true 0
      closes ← close_rpc_channel e opens.1
      pure closes.1

  -- VMWAddOnsCleanup::Start, with the answers of the alerts and what ThreadLoop returns: its result,
  -- fCleanupInProgress, and the backdoor.
  unfoldable pub start : CoreBackdoor → Choice → Bool → Status → M (Status × Bool × CoreBackdoor)
  unfolding start_shrink
  start b cancel confirm cleaned = pure (ok, false, b)
  start b shrink_now confirm cleaned =
      if not confirm then pure (ok, false, b) else do b' ← start_shrink b; pure (ok, false, b')
  start b clean_up confirm cleaned =
      if is_interrupted cleaned
      then pure (interrupted, false, b)
      else if not confirm
      then pure (ok, false, b)
      else do b' ← start_shrink b; pure (ok, false, b')
