-- ===== src/Fs/Files.antt =====
-- vmware_fs/file_operations.cpp: the hooks on files.
use vmware_addons.Base.{
  ℕ, zero, suc, ◌+◌, ◌-◌, ◌%◌, ◌^◌, Bool, true, false, not, Option, none, some, Bytes, ◌==◌, ltb,
  leb, cond, length, take, drop, ◌&&◌,
}
use vmware_addons.Machine.{
  Env, M, Status, ok, no_memory, bad_value, is_ok, pure, checked, emit, ask, malloc, free,
  entry_created, stat_changed, vnode_wanted, asked_time, if◌then◌else◌, ◌>>=◌, ◌>>◌,
}
use vmware_addons.Folders.{Folders, OpenMode, Result}
use vmware_addons.Folders.Files.{open_file, read_file, write_file, close_file}
use vmware_addons.Node.{parent}
use vmware_addons.Fs.{Volume, Returned, return, return_with, with_path, child, io_size}

-- A file cookie holds the host's handle; the root, opened as a file, has -1.
abbrev pub root_handle : ℕ
root_handle = 2 ^ 32 - 1

abbrev pub notification_interval : ℕ
notification_interval = 1000000

-- off_t is signed.
abbrev pub is_negative : ℕ → Bool
is_negative pos = leb (2 ^ 63) pos

-- What the loops of vmwfs_read and vmwfs_write have done when they end: the last status, the bytes
-- counted, and the object.
pub record Progress : Type 0 where
  pub status : Status
  pub count : ℕ
  pub folders : Folders

abbrev pub chunk : ℕ → ℕ → ℕ
chunk n so_far = cond (ltb (n - so_far) io_size) (n - so_far) io_size

abbrev pub out_or {ℓ} : {A : Type ℓ} → A → Option A → A
out_or d none = d
out_or d (some a) = a

-- The loop of vmwfs_read, over ReadFile as (object, position, bytes wanted); `none` if the fuel runs
-- out. ReadFile leaves `toRead` alone where it stores nothing.
module _ (read : Folders → ℕ → ℕ → M (Result ℕ)) where
  unfoldable pub read_loop : ℕ → Folders → ℕ → ℕ → ℕ → M (Option Progress)
  read_loop zero f pos n so_far = pure none
  read_loop (suc fuel) f pos n so_far = do
    r ← read f ((pos + so_far) % 2 ^ 64) (chunk n so_far)
    let got = out_or (chunk n so_far) r.out
    elim (not (got == 0) && ltb (so_far + got) n && is_ok r.status) [
      | true ↦ read_loop fuel r.folders pos n (so_far + got)
      | false ↦
          pure (some (record { status = r.status; count = so_far + got; folders = r.folders }))
    ]

-- The loop of vmwfs_write, over WriteFile as (object, position, bytes).
module _ (write : Folders → ℕ → Bytes → M (Result ℕ)) where
  unfoldable pub write_loop : ℕ → Folders → Status → ℕ → Bytes → ℕ → M (Option Progress)
  write_loop zero f status pos buffer written = pure none
  write_loop (suc fuel) f status pos buffer written =
      elim (ltb written (length buffer) && is_ok status) [
        | false ↦ pure (some (record { status = status; count = written; folders = f }))
        | true ↦ do
          r ←
              write f ((pos + written) % 2 ^ 64)
                (take (chunk (length buffer) written) (drop written buffer))
          write_loop fuel r.folders r.status pos buffer
              (written + out_or (chunk (length buffer) written) r.out)
      ]

module _ (e : Env) where
  -- vmwfs_create; `out` is the cookie's handle and the inode number.
  unfoldable pub vmwfs_create : Volume → ℕ → Bytes → OpenMode → M (Returned (ℕ × ℕ))
  vmwfs_create v dir name mode = with_path e v dir (some name) λ _ text. do
    cookie ← malloc e 4
    if not cookie then (do free; return v no_memory) else do
      r ← open_file e v.folders text (record mode { creat = true })
      free
      let opened = record v { folders = r.folders }
      if not (is_ok r.status) then (do free; return opened r.status) else do
        (k, v') ← child e opened dir name
        elim k [
          | none ↦ return v' no_memory
          | some inode ↦ do
            emit (entry_created dir name inode)
            s ← ask (λ t. e.vnode_answer t inode)
            emit (vnode_wanted inode)
            return_with v' s (out_or 0 r.out, inode)
        ]

  -- vmwfs_open; `out` is the cookie's handle.
  unfoldable pub vmwfs_open : Volume → ℕ → OpenMode → M (Returned ℕ)
  vmwfs_open v self mode = with_path e v self none λ n text. do
    cookie ← malloc e 4
    if not cookie
        then (do free; return v no_memory)
        else if n == 0
        then (do free; return_with v ok root_handle)
        else do
          r ← open_file e v.folders text mode
          free
          if not (is_ok r.status)
              then (do free; return (record v { folders = r.folders }) r.status)
              else return_with (record v { folders = r.folders }) ok (out_or 0 r.out)

  -- vmwfs_close
  unfoldable pub vmwfs_close : Volume → ℕ → M (Returned (Unit {0}))
  vmwfs_close v handle =
      if handle == root_handle
      then return v ok
      else do r ← close_file e v.folders handle; return (record v { folders = r.folders }) r.status

  -- vmwfs_free_cookie
  unfoldable pub vmwfs_free_cookie : Volume → M (Returned (Unit {0}))
  vmwfs_free_cookie v = do free; return v ok

  -- vmwfs_read of `n` bytes; `out` is what it stores in `*length`. The fuel is one round for each byte
  -- and one more.
  unfoldable pub vmwfs_read : Volume → ℕ → ℕ → ℕ → M (Option (Returned ℕ))
  vmwfs_read v handle pos n =
      if is_negative pos
      then pure (some (record { status = bad_value; out = none; volume = v }))
      else do
        r ← read_loop (λ f. read_file e f handle) (n + 1) v.folders pos n 0
        elim r [
          | none ↦ pure none
          | some p ↦ pure (
              some (record {
                status = p.status;
                out = some p.count;
                volume = record v { folders = p.folders };
              }))
        ]

  -- vmwfs_write from the end of the loop on: one notification a second at most.
  unfoldable pub notify_write : Volume → ℕ → Progress → M (Returned ℕ)
  notify_write v self p = do
    now ← ask e.time_answer
    emit asked_time
    if ltb (v.last_notification + notification_interval) now
        then (do
          above ← checked (parent self v.tree.root)
          emit (stat_changed above self 0)
          later ← ask e.time_answer
          emit asked_time
          return_with (record v { folders = p.folders; last_notification = later }) p.status
              p.count)
        else return_with (record v { folders = p.folders }) p.status p.count

  -- vmwfs_write; `out` is what it stores in `*length`. The fuel is one round for each byte and one
  -- more.
  unfoldable pub vmwfs_write : Volume → ℕ → ℕ → ℕ → Bytes → M (Option (Returned ℕ))
  vmwfs_write v self handle pos buffer =
      if is_negative pos
      then pure (some (record { status = bad_value; out = none; volume = v }))
      else do
        r ← write_loop (λ f. write_file e f handle) (length buffer + 1) v.folders ok pos buffer 0
        elim r [ none ↦ pure none | some p ↦ do done_ ← notify_write v self p; pure (some done_) ]
