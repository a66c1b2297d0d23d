-- ===== src/Fs/Vnodes.antt =====
-- vmware_fs/vnode_operations.cpp: the hooks on nodes and names.
use vmware_addons.Base.{
  ℕ, ◌+◌, ◌*◌, ◌-◌, ◌/◌, ◌%◌, ◌^◌, Bool, false, not, Option, none, some, Bytes, ◌==◌, cond, length,
  ◌&&◌, ◌||◌,
}
use vmware_addons.Machine.{
  Env, M, Status, ok, no_memory, buffer_overflow, permission_denied, is_ok, checked, emit, ask, log,
  malloc, free, entry_removed, entry_moved, stat_changed, vnode_wanted, if◌then◌else◌, ◌>>=◌, ◌>>◌,
}
use vmware_addons.Folders.{Attributes}
use vmware_addons.Folders.Entries.{get_attributes, set_attributes, delete_file, move}
use vmware_addons.Node.{parent, delete_child_if_exists}
use vmware_addons.Fs.{
  Volume, Returned, return, return_with, with_path, child, fake_block_size, copy_path,
  path_name_length,
}

-- The bits of a permission mask or an attribute mask: `(x & 2 ^ k) == 2 ^ k`.
abbrev pub has_bit : ℕ → ℕ → Bool
has_bit x k = x / 2 ^ k % 2 == 1

-- CAN_READ, CAN_WRITE, CAN_EXEC
abbrev pub can_read : Attributes → Bool
can_read a = has_bit a.perms 2

abbrev pub can_write : Attributes → Bool
can_write a = has_bit a.perms 1

abbrev pub can_exec : Attributes → Bool
can_exec a = has_bit a.perms 0

-- TO_UNIX_TIME and TO_VMW_TIME, on 64-bit patterns.
unfoldable pub to_unix_time : ℕ → ℕ
to_unix_time x = (x / 10000000 + 2 ^ 64 - 11644473600) % 2 ^ 64

unfoldable pub to_vmw_time : ℕ → ℕ
to_vmw_time x = (x + 11644473600) * 10000000 % 2 ^ 64

-- The three bits of one class in `st_mode`.
pub record Rights : Type 0 where
  pub readable : Bool
  pub writable : Bool
  pub executable : Bool

-- `st_mode`: S_I*USR, S_I*GRP and S_I*OTH, and whether it has S_IFDIR or S_IFREG.
pub record Mode : Type 0 where
  pub user : Rights
  pub group : Rights
  pub others : Rights
  pub directory : Bool

-- The fields of `struct stat` that the hooks read and write.
pub record Stat : Type 0 where
  pub mode : Mode
  pub device : ℕ
  pub inode : ℕ
  pub size : ℕ
  pub blocks : ℕ
  pub block_size : ℕ
  pub cr_time : ℕ
  pub a_time : ℕ
  pub m_time : ℕ
  pub c_time : ℕ

-- What vmwfs_read_stat fills in.
unfoldable pub stat_of : ℕ → ℕ → Attributes → Bool → Stat
stat_of device inode a is_dir =
    let size = cond is_dir 0 a.size in
    let shared : Rights = record {
      readable = can_read a;
      writable = false;
      executable = is_dir && can_exec a;
    } in
    record {
      mode = record {
        user = record shared { writable = can_write a };
        group = shared;
        others = shared;
        directory = is_dir;
      };
      device = device;
      inode = inode;
      size = size;
      blocks = size / fake_block_size + cond (size % fake_block_size == 0) 0 1;
      block_size = fake_block_size;
      cr_time = to_unix_time a.cr_time;
      a_time = to_unix_time a.a_time;
      m_time = to_unix_time a.m_time;
      c_time = to_unix_time a.c_time;
    }

-- The attributes and the mask that vmwfs_write_stat sends; the mode's bits are the user's.
unfoldable pub attributes_of : Stat → Attributes
attributes_of s = record {
  size = s.size;
  cr_time = to_vmw_time s.cr_time;
  a_time = to_vmw_time s.a_time;
  m_time = to_vmw_time s.m_time;
  c_time = to_vmw_time s.c_time;
  perms =
      cond s.mode.user.readable 4 0
      + cond s.mode.user.writable 2 0
      + cond s.mode.user.executable 1 0;
}

-- FS_WRITE_STAT_* to VMW_SET_*
unfoldable pub vmw_mask : ℕ → ℕ
vmw_mask m =
    cond (has_bit m 0) 0x20 0
    + cond (has_bit m 3) 0x01 0
    + cond (has_bit m 4) 0x04 0
    + cond (has_bit m 5) 0x08 0
    + cond (has_bit m 6) 0x02 0
    + cond (has_bit m 7) 0x10 0

module _ (e : Env) where
  -- `get_vnode(volume, inode, NULL)`
  abbrev pub get_vnode : ℕ → M Status
  get_vnode inode = do s ← ask (λ t. e.vnode_answer t inode); log (vnode_wanted inode) s

  -- vmwfs_lookup
  unfoldable pub vmwfs_lookup : Volume → ℕ → Bytes → M (Returned ℕ)
  vmwfs_lookup v dir name = with_path e v dir (some name) λ _ text. do
    r ← get_attributes e v.folders text
    free
    let v' = record v { folders = r.folders }
    if not (is_ok r.status) then return v' r.status else do
      (k, v'') ← child e v' dir name
      elim k [
        | none ↦ return v'' no_memory
        | some inode ↦ do s ← get_vnode inode; return_with v'' s inode
      ]

  -- vmwfs_put_vnode, vmwfs_fsync
  unfoldable pub vmwfs_put_vnode : Volume → M (Returned (Unit {0}))
  vmwfs_put_vnode v = return v ok

  unfoldable pub vmwfs_fsync : Volume → M (Returned (Unit {0}))
  vmwfs_fsync v = return v ok

  -- vmwfs_remove_vnode: the node leaves its parent, or the root itself.
  unfoldable pub vmwfs_remove_vnode : Volume → ℕ → Bytes → M (Returned (Unit {0}))
  vmwfs_remove_vnode v self name = do
    got ← malloc e (length name + 1)
    if not got then return v no_memory else do
      let above : ℕ = elim (parent self v.tree.root) [ none ↦ self | some p ↦ p ]
      free
      return (record v { tree = delete_child_if_exists v.tree above name }) ok

  -- vmwfs_unlink
  unfoldable pub vmwfs_unlink : Volume → ℕ → Bytes → M (Returned (Unit {0}))
  vmwfs_unlink v dir name = with_path e v dir (some name) λ _ text. do
    (k, v') ← child e v dir name
    inode ← checked k
    r ← delete_file e v'.folders text
    free
    emit (entry_removed dir name inode)
    return (record v' { folders = r.folders }) r.status

  -- vmwfs_rename from the second path on.
  unfoldable pub rename_to :
      Volume → ℕ → Bytes → Bytes → ℕ → Bytes → Option (ℕ × Bytes) → M (Returned (Unit {0}))
  rename_to v from_dir from_name from_path to_dir to_name none = do
    free
    free
    return v buffer_overflow
  rename_to v from_dir from_name from_path to_dir to_name (some (_, to_path)) = do
    (k, v') ← child e v from_dir from_name
    inode ← checked k
    r ← move e v'.folders from_path to_path
    free
    free
    emit (entry_moved from_dir from_name to_dir to_name inode)
    return (record v' { folders = r.folders }) r.status

  -- vmwfs_rename
  unfoldable pub vmwfs_rename : Volume → ℕ → Bytes → ℕ → Bytes → M (Returned (Unit {0}))
  vmwfs_rename v from_dir from_name to_dir to_name = do
    first ← malloc e path_name_length
    second ← malloc e path_name_length
    if not (first && second) then (do free; free; return v no_memory) else do
      from ← copy_path v from_dir (some from_name)
      elim from [
        | none ↦ do free; free; return v buffer_overflow
        | some (_, from_path) ↦ do
          to ← copy_path v to_dir (some to_name)
          rename_to v from_dir from_name from_path to_dir to_name to
      ]

  -- vmwfs_access of the rights that `mode` asks for.
  unfoldable pub vmwfs_access : Volume → ℕ → Bool → Bool → Bool → M (Returned (Unit {0}))
  vmwfs_access v self read write exec = with_path e v self none λ _ text. do
    r ← get_attributes e v.folders text
    free
    let v' = record v { folders = r.folders }
    if not (is_ok r.status) then return v' r.status else do
      (a, _) ← checked r.out
      if read && not (can_read a) || write && not (can_write a) || exec && not (can_exec a)
          then return v' permission_denied
          else return v' ok

  -- vmwfs_read_stat
  unfoldable pub vmwfs_read_stat : Volume → ℕ → M (Returned Stat)
  vmwfs_read_stat v self = with_path e v self none λ _ text. do
    r ← get_attributes e v.folders text
    free
    let v' = record v { folders = r.folders }
    if not (is_ok r.status)
        then return v' r.status
        else do (a, is_dir) ← checked r.out; return_with v' ok (stat_of v.device_id self a is_dir)

  -- vmwfs_write_stat
  unfoldable pub vmwfs_write_stat : Volume → ℕ → Stat → ℕ → M (Returned (Unit {0}))
  vmwfs_write_stat v self s stat_mask = with_path e v self none λ _ text. do
    r ← set_attributes e v.folders text (attributes_of s) (vmw_mask stat_mask)
    free
    above ← checked (parent self v.tree.root)
    emit (stat_changed above self (vmw_mask stat_mask))
    return (record v { folders = r.folders }) r.status
