-- ===== src/Fs/Dirs.antt =====
-- vmware_fs/dir_operations.cpp: the hooks on directories.
use vmware_addons.Base.{
  ℕ, ◌+◌, ◌-◌, ◌/◌, ◌%◌, ◌^◌, Bool, true, false, not, none, some, Bytes, leb, length,
}
use vmware_addons.Machine.{
  Env, M, ok, no_memory, buffer_overflow, entry_not_found, bad_address, is_ok, checked, done, fault,
  emit, malloc, free, user_write, entry_created, entry_removed, if◌then◌else◌, ◌>>=◌, ◌>>◌,
}
use vmware_addons.Folders.Dirs.{open_dir, read_dir, close_dir, create_dir}
use vmware_addons.Folders.Entries.{delete_dir}
use vmware_addons.Node.{delete_child_if_exists}
use vmware_addons.Fs.{
  Volume, Returned, return, return_with, with_path, child, copy_path, path_name_length,
}

-- dir_cookie
pub record DirCookie : Type 0 where
  pub handle : ℕ
  pub index : ℕ

-- `(permissions & S_IRWXU) >> VMWFS_PERMS_MODE_SHIFT`
abbrev pub user_mode : ℕ → ℕ
user_mode permissions = permissions / 64 % 8

abbrev within : Bool → M (Unit {0})
within true t = done tt t
within false t = fault

module _ (e : Env) where
  -- vmwfs_create_dir
  unfoldable pub vmwfs_create_dir : Volume → ℕ → Bytes → ℕ → M (Returned (Unit {0}))
  vmwfs_create_dir v dir name permissions = with_path e v dir (some name) λ _ text. do
    r ← create_dir e v.folders text (user_mode permissions)
    free
    (k, v') ← child e (record v { folders = r.folders }) dir name
    inode ← checked k
    emit (entry_created dir name inode)
    return v' r.status

  -- vmwfs_remove_dir
  unfoldable pub vmwfs_remove_dir : Volume → ℕ → Bytes → M (Returned (Unit {0}))
  vmwfs_remove_dir v dir name = with_path e v dir (some name) λ _ text. do
    r ← delete_dir e v.folders text
    free
    let v' = record v { folders = r.folders }
    if not (is_ok r.status) then return v' r.status else do
      (k, v'') ← child e v' dir name
      inode ← checked k
      emit (entry_removed dir name inode)
      return (record v'' { tree = delete_child_if_exists v''.tree dir name }) ok

  -- vmwfs_open_dir; `out` is the cookie.
  unfoldable pub vmwfs_open_dir : Volume → ℕ → M (Returned DirCookie)
  vmwfs_open_dir v self = do
    cookie ← malloc e 8
    if not cookie then return v no_memory else do
      got ← malloc e path_name_length
      if not got then (do free; return v no_memory) else do
        path ← copy_path v self none
        elim path [
          | none ↦ do free; free; return v buffer_overflow
          | some (_, text) ↦ do
            r ← open_dir e v.folders text
            free
            let v' = record v { folders = r.folders }
            if not (is_ok r.status) then (do free; return v' r.status) else do
              handle ← checked r.out
              return_with v' ok (record { handle = handle; index = 0 })
        ]

  -- vmwfs_close_dir
  unfoldable pub vmwfs_close_dir : Volume → DirCookie → M (Returned (Unit {0}))
  vmwfs_close_dir v cookie = do
    r ← close_dir e v.folders cookie.handle
    return (record v { folders = r.folders }) r.status

  -- vmwfs_free_dir_cookie
  unfoldable pub vmwfs_free_dir_cookie : Volume → M (Returned (Unit {0}))
  vmwfs_free_dir_cookie v = do free; return v ok

  -- vmwfs_rewind_dir; `out` is the cookie.
  unfoldable pub vmwfs_rewind_dir : Volume → DirCookie → M (Returned DirCookie)
  vmwfs_rewind_dir v cookie = return_with v ok (record cookie { index = 0 })

  -- `offsetof(struct dirent, d_name)` and `sizeof(struct dirent)`
  module _ (d_name_offset dirent_size : ℕ) where
    -- vmwfs_read_dir once ReadDir has left a name: the whole entry goes to the caller, of which the
    -- event keeps the name. An entry that does not fit in its block of memory is a fault.
    unfoldable pub put_entry : Volume → ℕ → DirCookie → ℕ → Bytes → M (Returned (ℕ × DirCookie))
    put_entry v self cookie buffer_size name = do
      within (leb (d_name_offset + length name + 1) buffer_size)
      (k, v') ← child e v self name
      elim k [
        | none ↦ do free; return v' no_memory
        | some inode ↦ do
          let reclen = (dirent_size + length name) % 2 ^ 16
          within (leb reclen buffer_size)
          copied ← user_write e name reclen
          free
          if not (is_ok copied)
              then return v' bad_address
              else return_with v' ok (1, record cookie { index = (cookie.index + 1) % 2 ^ 32 })
      ]

    -- vmwfs_read_dir; `out` is what it stores in `*_num`, and the cookie.
    unfoldable pub vmwfs_read_dir : Volume → ℕ → DirCookie → ℕ → M (Returned (ℕ × DirCookie))
    vmwfs_read_dir v self cookie buffer_size = do
      got ← malloc e buffer_size
      if not got then return v no_memory else do
        r ←
            read_dir e v.folders cookie.handle cookie.index
              ((buffer_size + 2 ^ 64 - d_name_offset) % 2 ^ 64) (buffer_size - d_name_offset)
        let v' = record v { folders = r.folders }
        elim r.status [
          | entry_not_found ↦ do free; return_with v' ok (0, cookie)
          | ok ↦ do name ← checked r.out; put_entry v' self cookie buffer_size name
          | s ↦ do free; return v' s
        ]
