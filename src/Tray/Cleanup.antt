-- ===== src/Tray/Cleanup.antt =====
-- vmware_tray/VMWAddOnsCleanup.cpp: WriteToFile and FillDirectory, which fill a volume with zeros so that
-- VMware can shrink its disk. ThreadLoop and Start are in the module of the volumes.
pub mod Filling
pub mod Emptying
use vmware_addons.Base.{
  ℕ, zero, suc, ◌+◌, ◌-◌, ◌*◌, Bool, true, false, not, Option, none, some, List, [], ◌∷◌, ltb, leb,
  cond, ◌⊎◌, inl, inr,
}
use vmware_addons.Machine.{Status, ok, interrupted, device_full, is_ok}

abbrev pub mb : ℕ
mb = 1048576

abbrev pub buf_size : ℕ
buf_size = 524288

abbrev pub max_files : ℕ
max_files = 200

abbrev pub max_file_size : ℕ
max_file_size = 4096

-- What the thread has done: objects made and deleted, files created, entries removed or left where FindEntry or
-- Remove failed, bytes written.
pub data Deed : Type 0 where
  file_new file_created entry_gone entry_kept write_failed synced updated file_deleted : Deed
  wrote : ℕ → Deed

-- Newest first.
abbrev pub Deeds : Type 0
Deeds = List Deed

-- The answers of BDirectory::CreateFile, of FindEntry and Remove (whether both succeed), of BFile::Write and of
-- the status window to what was done.
pub record Volume : Type 0 where
  pub create_answer : Deeds → Status
  pub remove_answer : Deeds → Bool
  pub write_answer : Deeds → Status ⊎ ℕ
  pub cancelled : Deeds → Bool

-- The loop over full MBs: `currentSize` and `writeProgress`.
unfoldable pub count_mbs : ℕ → ℕ → ℕ → Deeds → Option (ℕ × ℕ × Deeds)
count_mbs zero size progress h = none
count_mbs (suc k) size progress h =
    let rest = count_mbs k (size + 1) (progress - mb) (updated ∷ synced ∷ h) in
    cond (leb mb progress) rest (some (size, progress, h))

module _ (v : Volume) where
  -- The rounds of VMWAddOnsCleanup::WriteToFile.
  unfoldable pub write_rounds : ℕ → ℕ → ℕ → Deeds → Option (Status × Deeds)
  write_rounds zero size progress h = none
  write_rounds (suc k) size progress h = elim (v.write_answer h) [
    | inl failed ↦ some (failed, write_failed ∷ h)
    | inr written ↦
        cond (ltb written buf_size) (some (device_full, wrote written ∷ h))
          (elim (count_mbs (suc (suc written)) size (progress + written) (wrote written ∷ h)) [
            | none ↦ none
            | some (size', progress', h') ↦
                let rest = write_rounds k size' progress' h' in
                cond (v.cancelled h') (some (interrupted, h'))
                  (cond (ltb size' max_file_size) rest (some (ok, h')))
          ])
  ]

  -- VMWAddOnsCleanup::WriteToFile, with a round for each buffer of the largest file.
  unfoldable pub write_to_file : Deeds → Option (Status × Deeds)
  write_to_file h = write_rounds 8192 0 0 h

  -- FindEntry and Remove, whose results are not tested.
  abbrev pub unlinked : Deeds → Deeds
  unlinked h = cond (v.remove_answer h) entry_gone entry_kept ∷ h

  -- The loop of VMWAddOnsCleanup::FillDirectory: `status`, and `filesCount`.
  unfoldable pub make_files : ℕ → Status → ℕ → Deeds → Option (Status × ℕ × Deeds)
  unfolding write_to_file
  make_files zero status count h = some (status, count, h)
  make_files (suc k) status count h =
      let made = v.create_answer (file_new ∷ h) in
      cond (not (is_ok made)) (some (made, count, file_new ∷ h))
        (elim (write_to_file (unlinked (file_created ∷ file_new ∷ h))) [
          | none ↦ none
          | some (written, h') ↦
              let rest = make_files k written (count + 1) h' in
              cond (is_ok written) rest (some (written, count + 1, h'))
        ])

-- `delete spaceSuckingFiles[i]` for each file that was counted.
unfoldable pub delete_files : ℕ → Deeds → Deeds
delete_files zero h = h
delete_files (suc n) h = delete_files n (file_deleted ∷ h)

module _ (v : Volume) where
  -- VMWAddOnsCleanup::FillDirectory
  unfoldable pub fill_directory : Status → Deeds → Option (Status × Deeds)
  unfolding make_files delete_files
  fill_directory stale h = elim (make_files v max_files stale 0 h) [
    | none ↦ none
    | some (status, count, h') ↦ some (status, delete_files count h')
  ]
