-- ===== src/Examples/Disks.antt =====
-- Examples for vmware_tray/VMWAddOnsCleanup.cpp: a volume with room for three buffers and 100 bytes.
use vmware_addons.Base.{inr, cond, ltb, true, false, [], arith}
use vmware_addons.Machine.{ok}
use vmware_addons.Tray.Cleanup.{Volume, fill_directory}
use vmware_addons.Tray.Cleanup.Filling.{Ends, IsVolume, bytes_of}
use vmware_addons.Tray.Cleanup.Emptying.{Emptied, fill_directory-Emptied}

abbrev pub small_volume : Volume
small_volume = record {
  create_answer = λ h. ok;
  remove_answer = λ h. true;
  write_answer = λ h. inr (cond (ltb (bytes_of h) 1572864) 524288 100);
  cancelled = λ h. false;
}

pub small_volume-IsVolume : IsVolume small_volume
small_volume-IsVolume = ((λ h n e. grind arith), (λ h s e. ground arith))

fill_directory-Emptied_example : Ends (Emptied []) (fill_directory small_volume ok [])
fill_directory-Emptied_example = fill_directory-Emptied small_volume small_volume-IsVolume ok []
