-- ===== src/Folders/Sessions/Locking.antt =====
-- The lock of VMWSharedFolders over one operation of vmware_fs/VMWSharedFolders.cpp, whichever it is.
use vmware_addons.Base.{ℕ, ◌≢◌, true, false, []}
use vmware_addons.Machine.{Env, M, Trace, Outcome, done, fault, panic}
use vmware_addons.Machine.Laws.{held}
use vmware_addons.Folders.{Attributes, Folders, OpenMode, Result}
use vmware_addons.Folders.Sessions.{
  Call, opens_file, reads_file, writes_file, closes_file, opens_dir, reads_dir, closes_dir,
  creates_dir, gets_attributes, sets_attributes, deletes, moves, run, then_folders,
}
use vmware_addons.Folders.Locking.{Holds, dir-locking, entry-locking, file-locking}
use vmware_addons.Folders.Files.{close_file, open_file, read_file, write_file}
use vmware_addons.Folders.Dirs.{close_dir, create_dir, open_dir, read_dir}
use vmware_addons.Folders.Entries.{delete, get_attributes, move, set_attributes}

-- Arguments that a lemma on several calls takes and that do not matter.
abbrev no_mode : OpenMode
no_mode = record { access = 0; trunc = false; creat = false; excl = false }

abbrev no_attributes : Attributes
no_attributes = record { size = 0; cr_time = 0; a_time = 0; m_time = 0; c_time = 0; perms = 0 }

module _ (e : Env) where
  then_folders-Holds {ℓ} :
      {A : Type ℓ} (s n : ℕ) (m : M (Result A)) (t : Trace)
      → Holds s n (m t)
      → Holds s n (then_folders m t)
  then_folders-Holds {A} s n m t h = go (m t) h
    where
      go :
          (o : Outcome (Result A))
          → Holds s n o
          → Holds s n (elim o [ done r t' ↦ done r.folders t' | fault ↦ fault | panic ↦ panic ])
      go (done r t') h = h
      go fault h = h
      go panic h = h

  -- Whatever the host answers, a call holds the object's lock as often where it ends as before, if that is not
  -- the backdoor's semaphore.
  pub run-locking :
      (f : Folders) (c : Call) (t : Trace)
      → f.backdoor.backdoor_access ≢ f.lock
      → Holds f.lock (held f.lock t) (run e f c t)
  run-locking f (opens_file name m) t other =
      then_folders-Holds _ _ (open_file e f name m) t (file-locking e f other name [] m 0 0 0 t).0
  run-locking f (reads_file handle offset n) t other =
      then_folders-Holds _ _ (read_file e f handle offset n) t
        (file-locking e f other [] [] no_mode handle offset n t).1
  run-locking f (writes_file handle offset bytes) t other =
      then_folders-Holds _ _ (write_file e f handle offset bytes) t
        (file-locking e f other [] bytes no_mode handle offset 0 t).2
  run-locking f (closes_file handle) t other =
      then_folders-Holds _ _ (close_file e f handle) t
        (file-locking e f other [] [] no_mode handle 0 0 t).3
  run-locking f (opens_dir name) t other =
      then_folders-Holds _ _ (open_dir e f name) t (dir-locking e f other name 0 0 0 0 0 t).0
  run-locking f (reads_dir handle index n memory) t other =
      then_folders-Holds _ _ (read_dir e f handle index n memory) t
        (dir-locking e f other [] 0 handle index n memory t).1
  run-locking f (closes_dir handle) t other =
      then_folders-Holds _ _ (close_dir e f handle) t (dir-locking e f other [] 0 handle 0 0 0 t).2
  run-locking f (creates_dir name mode) t other =
      then_folders-Holds _ _ (create_dir e f name mode) t
        (dir-locking e f other name mode 0 0 0 0 t).3
  run-locking f (gets_attributes name) t other =
      then_folders-Holds _ _ (get_attributes e f name) t
        (entry-locking e f other name [] no_attributes 0 true t).0
  run-locking f (sets_attributes name a mask) t other =
      then_folders-Holds _ _ (set_attributes e f name a mask) t
        (entry-locking e f other name [] a mask true t).1
  run-locking f (deletes name is_dir) t other =
      then_folders-Holds _ _ (delete e f name is_dir) t
        (entry-locking e f other name [] no_attributes 0 is_dir t).2
  run-locking f (moves from to) t other =
      then_folders-Holds _ _ (move e f from to) t
        (entry-locking e f other from to no_attributes 0 true t).3
