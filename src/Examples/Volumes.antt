-- ===== src/Examples/Volumes.antt =====
-- Examples for the volumes of vmware_tray/VMWAddOnsSelectWindow.cpp and VMWAddOnsCleanup.cpp.
use vmware_addons.Base.{
  ℕ, ◌<◌, ◌≡◌, ◌⊎◌, inl, inr, refl, true, false, some, [], ◌∷◌, List, cond, ◌==◌, arith,
}
use vmware_addons.Machine.{ok}
use vmware_addons.Tray.Cleanup.{Deeds}
use vmware_addons.Tray.Cleanup.Filling.{Ends}
use vmware_addons.Tray.Volumes.{
  SelectWindow, VolumeInfo, WindowMessage, clean_all, cleanup_selection, device_mounted,
  device_unmounted, is_writable, list_volumes, new_window, receive_all, window_received,
}
use vmware_addons.Tray.Volumes.Choosing.{All, IsKnown, Lists, window-IsKnown}
use vmware_addons.Tray.Volumes.Removing.{device_unmounted-others, others}
use vmware_addons.Tray.Volumes.Cleaning.{Cleaned, clean_all-Cleaned}
use vmware_addons.Examples.Disks.{small_volume, small_volume-IsVolume}

abbrev fixed : ℕ → VolumeInfo
fixed d = record {
  device = d;
  init_ok = true;
  is_persistent = true;
  is_removable = false;
  is_read_only = false;
}

abbrev disc : VolumeInfo
disc = record {
  device = 8;
  init_ok = true;
  is_persistent = true;
  is_removable = false;
  is_read_only = true;
}

abbrev roster : List VolumeInfo
roster = fixed 2 ∷ disc ∷ fixed 3 ∷ []

-- Another volume is mounted, and the second and the third of the list are chosen.
abbrev messages : List WindowMessage
messages = device_mounted (some (fixed 5)) ∷ cleanup_selection (1 ∷ 2 ∷ []) ∷ []

window-IsKnown_example :
    IsKnown (λ d. d < 8) (receive_all messages (new_window roster))
    × All (λ v. (is_writable v ≡ false) ⊎ Lists (new_window roster).items v) roster
    × All (λ v. is_writable v ≡ true) (new_window roster).items
window-IsKnown_example =
    window-IsKnown (λ d. d < 8) roster messages
      (inr (omega arith), (inl refl, (inr (omega arith), tt))) (inr (omega arith), (tt, tt))

abbrev window : SelectWindow
window = new_window roster

device_unmounted-others_example :
    ((window_received (device_unmounted (some 2)) window).items ≡ others 2 window.items)
    × ((window_received (device_unmounted (some 2)) window).to_cleanup ≡ window.to_cleanup)
unfolding list_volumes
device_unmounted-others_example = device_unmounted-others window 2 (omega arith)

-- Device 4 is a disc.
abbrev look : ℕ → Deeds → VolumeInfo
look d h = cond (d == 4) disc (fixed d)

clean_all-Cleaned_example :
    Ends (Cleaned (2 ∷ 4 ∷ 3 ∷ []) []) (clean_all look (λ d. small_volume) (2 ∷ 4 ∷ 3 ∷ []) ok [])
clean_all-Cleaned_example =
    clean_all-Cleaned look (λ d. small_volume) (λ d. small_volume-IsVolume) (2 ∷ 4 ∷ 3 ∷ []) ok []
