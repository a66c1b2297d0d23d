-- ===== src/Folders/Locking.antt =====
-- The lock of VMWSharedFolders, which is not the backdoor's semaphore.
use vmware_addons.Base.{ℕ, ◌-◌, ◌≡◌, ◌≢◌, Bool, Bytes, List, arith}
use vmware_addons.Machine.{Env, Trace, Outcome, ◌>>=◌}
use vmware_addons.Machine.Laws.{held, at_end}
use vmware_addons.Backdoor.{CoreBackdoor}
use vmware_addons.Backdoor.Rpc.{
  Reply, send_command, confirm, receive_data, receive_reply, send_and_get,
}
use vmware_addons.Folders.{Folders, Attributes, OpenMode, Piece, exchange, deliver, conclude_handle}
use vmware_addons.Folders.Files.{
  open_file, read_file, read_file_answer, write_file, write_file_data, close_file,
}
use vmware_addons.Folders.Dirs.{open_dir, read_dir, read_dir_answer, close_dir, create_dir}
use vmware_addons.Folders.Entries.{
  get_attributes, get_attributes_answer, set_attributes, delete, move,
}

-- Where the run ends, the semaphore is held `n` times.
abbrev pub Holds {ℓ} : {A : Type ℓ} → ℕ → ℕ → Outcome A → Type 0
Holds s n o = at_end (held s) n o ≡ n

module _ (e : Env) (b : CoreBackdoor) (s : ℕ) (other : b.backdoor_access ≢ s) where
  send_command-Holds :
      (message : Bytes) (n : ℕ) (t : Trace) → Holds s (held s t) (send_command e b message n t)
  unfolding send_command
  send_command-Holds message n t = ground arith

  confirm-Holds :
      (filled : Bytes) (n reply_id : ℕ) (t : Trace)
      → Holds s (held s t) (confirm e b filled n reply_id t)
  unfolding confirm
  confirm-Holds filled n reply_id t = ground arith

  receive_data-Holds :
      (buffer : Bytes) (n reply_id : ℕ) (t : Trace)
      → Holds s (held s t) (receive_data e b buffer n reply_id t)
  unfolding receive_data
  receive_data-Holds buffer n reply_id t = grind (arith, confirm-Holds)

  receive_reply-Holds :
      (buffer : Bytes) (n size : ℕ) (t : Trace)
      → Holds s (held s t) (receive_reply e b buffer n size t)
  unfolding receive_reply
  receive_reply-Holds buffer n size t = grind (arith, receive_data-Holds)

  send_and_get-Holds :
      (buffer : Bytes) (n size : ℕ) (t : Trace)
      → Holds s (held s t) (send_and_get e b buffer n size t)
  unfolding send_and_get
  send_and_get-Holds buffer n size t = grind (arith, send_command-Holds, receive_reply-Holds)

module _ (e : Env) (f : Folders) (other : f.backdoor.backdoor_access ≢ f.lock) where
  exchange-Holds :
      (n : ℕ) (ps : List Piece) (t : Trace) → Holds f.lock (held f.lock t) (exchange e f n ps t)
  unfolding exchange
  exchange-Holds n ps t = grind (arith, send_and_get-Holds)

  open_file-Holds :
      (name : Bytes) (m : OpenMode) (t : Trace)
      → Holds f.lock (held f.lock t) (open_file e f name m t)
  unfolding open_file
  open_file-Holds name m t = grind (arith, exchange-Holds)

  close_file-Holds :
      (handle : ℕ) (t : Trace) → Holds f.lock (held f.lock t) (close_file e f handle t)
  unfolding close_file
  close_file-Holds handle t = grind (arith, exchange-Holds)

  read_file_answer-Holds :
      (n : ℕ) (r : Reply) (t : Trace)
      → Holds f.lock (held f.lock t - 1) (read_file_answer e f n r t)
  unfolding read_file_answer
  read_file_answer-Holds n r t = ground arith

  read_file-Holds :
      (handle offset n : ℕ) (t : Trace)
      → Holds f.lock (held f.lock t) (read_file e f handle offset n t)
  unfolding read_file
  read_file-Holds handle offset n t = grind (arith, exchange-Holds, read_file_answer-Holds)

  deliver-Holds :
      (buffer : Bytes) (pos n : ℕ) (t : Trace)
      → Holds f.lock (held f.lock t) (deliver e f buffer pos n t)
  deliver-Holds buffer pos n t = grind (arith, send_and_get-Holds)

  concluded-Holds :
      (buffer : Bytes) (pos n : ℕ) (t : Trace)
      → Holds f.lock
          (held f.lock t - 1)
          ((do reply ← deliver e f buffer pos n; conclude_handle e f reply) t)
  concluded-Holds buffer pos n t = grind (arith, send_and_get-Holds e f.backdoor f.lock other)

  write_file_data-Holds :
      (bytes : Bytes) (n : ℕ) (buffer : Bytes) (pos : ℕ) (t : Trace)
      → Holds f.lock (held f.lock t - 1) (write_file_data e f bytes n buffer pos t)
  unfolding write_file_data
  write_file_data-Holds bytes n buffer pos t = grind (arith, deliver-Holds, concluded-Holds)

  write_file-Holds :
      (handle offset : ℕ) (bytes : Bytes) (t : Trace)
      → Holds f.lock (held f.lock t) (write_file e f handle offset bytes t)
  unfolding write_file
  write_file-Holds handle offset bytes t = grind (arith, write_file_data-Holds)

  open_dir-Holds : (name : Bytes) (t : Trace) → Holds f.lock (held f.lock t) (open_dir e f name t)
  unfolding open_dir
  open_dir-Holds name t = grind (arith, exchange-Holds)

  read_dir_answer-Holds :
      (n memory : ℕ) (r : Reply) (t : Trace)
      → Holds f.lock (held f.lock t - 1) (read_dir_answer e f n memory r t)
  unfolding read_dir_answer
  read_dir_answer-Holds n memory r t = ground arith

  read_dir-Holds :
      (handle index n memory : ℕ) (t : Trace)
      → Holds f.lock (held f.lock t) (read_dir e f handle index n memory t)
  unfolding read_dir
  read_dir-Holds handle index n memory t = grind (arith, exchange-Holds, read_dir_answer-Holds)

  close_dir-Holds : (handle : ℕ) (t : Trace) → Holds f.lock (held f.lock t) (close_dir e f handle t)
  unfolding close_dir
  close_dir-Holds handle t = grind (arith, exchange-Holds)

  create_dir-Holds :
      (name : Bytes) (mode : ℕ) (t : Trace)
      → Holds f.lock (held f.lock t) (create_dir e f name mode t)
  unfolding create_dir
  create_dir-Holds name mode t = grind (arith, exchange-Holds)

  get_attributes_answer-Holds :
      (r : Reply) (t : Trace) → Holds f.lock (held f.lock t - 1) (get_attributes_answer e f r t)
  unfolding get_attributes_answer
  get_attributes_answer-Holds r t = ground arith

  get_attributes-Holds :
      (name : Bytes) (t : Trace) → Holds f.lock (held f.lock t) (get_attributes e f name t)
  unfolding get_attributes
  get_attributes-Holds name t = grind (arith, exchange-Holds, get_attributes_answer-Holds)

  set_attributes-Holds :
      (name : Bytes) (a : Attributes) (mask : ℕ) (t : Trace)
      → Holds f.lock (held f.lock t) (set_attributes e f name a mask t)
  unfolding set_attributes
  set_attributes-Holds name a mask t = grind (arith, exchange-Holds)

  delete-Holds :
      (name : Bytes) (is_dir : Bool) (t : Trace)
      → Holds f.lock (held f.lock t) (delete e f name is_dir t)
  unfolding delete
  delete-Holds name is_dir t = grind (arith, exchange-Holds)

  move-Holds : (from to : Bytes) (t : Trace) → Holds f.lock (held f.lock t) (move e f from to t)
  unfolding move
  move-Holds from to t = grind (arith, exchange-Holds)

  -- Whatever the host answers, OpenFile, ReadFile, WriteFile and CloseFile hold the object's lock as
  -- often where they end as before, if it is not the backdoor's semaphore.
  pub file-locking :
      (name bytes : Bytes) (m : OpenMode) (handle offset n : ℕ) (t : Trace)
      → Holds f.lock (held f.lock t) (open_file e f name m t)
        × Holds f.lock (held f.lock t) (read_file e f handle offset n t)
        × Holds f.lock (held f.lock t) (write_file e f handle offset bytes t)
        × Holds f.lock (held f.lock t) (close_file e f handle t)
  file-locking name bytes m handle offset n t = (
    open_file-Holds name m t,
    read_file-Holds handle offset n t,
    write_file-Holds handle offset bytes t,
    close_file-Holds handle t,
  )

  -- Whatever the host answers, OpenDir, ReadDir, CloseDir and CreateDir hold the object's lock as often
  -- where they end as before, if it is not the backdoor's semaphore.
  pub dir-locking :
      (name : Bytes) (mode handle index n memory : ℕ) (t : Trace)
      → Holds f.lock (held f.lock t) (open_dir e f name t)
        × Holds f.lock (held f.lock t) (read_dir e f handle index n memory t)
        × Holds f.lock (held f.lock t) (close_dir e f handle t)
        × Holds f.lock (held f.lock t) (create_dir e f name mode t)
  dir-locking name mode handle index n memory t = (
    open_dir-Holds name t,
    read_dir-Holds handle index n memory t,
    close_dir-Holds handle t,
    create_dir-Holds name mode t,
  )

  -- Whatever the host answers, GetAttributes, SetAttributes, Delete and Move hold the object's lock as
  -- often where they end as before, if it is not the backdoor's semaphore.
  pub entry-locking :
      (name to : Bytes) (a : Attributes) (mask : ℕ) (is_dir : Bool) (t : Trace)
      → Holds f.lock (held f.lock t) (get_attributes e f name t)
        × Holds f.lock (held f.lock t) (set_attributes e f name a mask t)
        × Holds f.lock (held f.lock t) (delete e f name is_dir t)
        × Holds f.lock (held f.lock t) (move e f name to t)
  entry-locking name to a mask is_dir t = (
    get_attributes-Holds name t,
    set_attributes-Holds name a mask t,
    delete-Holds name is_dir t,
    move-Holds name to t,
  )
