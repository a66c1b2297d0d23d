-- ===== src/Fs/Volumes.antt =====
-- vmware_fs/volume_operations.cpp: mounting, unmounting and the nodes that the kernel asks for.
use vmware_addons.Base.{ℕ, ◌+◌, ◌-◌, Bool, false, not, none, some, ◌==◌, []}
use vmware_addons.Machine.{
  Env, M, ok, no_memory, unsupported, entry_not_found, bad_value, is_ok, checked, ask, emit, malloc,
  free, vnode_published, vnode_put, if◌then◌else◌, ◌>>=◌, ◌>>◌,
}
use vmware_addons.Folders.{Folders}
use vmware_addons.Folders.Entries.{get_attributes}
use vmware_addons.Folders.Mount.{construct_folders, destroy_folders}
use vmware_addons.Node.{leaf, Tree, find, inode_of}
use vmware_addons.Fs.{Volume, Returned, return, return_with, with_path, io_size, fake_block_size}
use vmware_addons.Fs.Vnodes.{Mode, can_read, can_write, can_exec}

-- The numbers and the name of `struct fs_info` that vmwfs_read_fs_info fills in.
pub record FsInfo : Type 0 where
  pub block_size : ℕ
  pub io_size_of : ℕ
  pub total_blocks : ℕ
  pub free_blocks : ℕ
  pub total_nodes : ℕ
  pub free_nodes : ℕ

-- `sizeof(VMWSharedFolders)`, on which nothing depends.
abbrev pub folders_size : ℕ
folders_size = 96

module _ (e : Env) where
  -- vmwfs_mount once gSharedFolders is made: the root node and its vnode. Where publish_vnode fails
  -- the object and the node stay.
  unfoldable pub publish_root : Volume → ℕ → M (Returned ℕ)
  publish_root v id = do
    let root = v.tree.next_inode
    let tree : Tree = record { root = leaf root []; next_inode = root + 1 }
    s ← ask (λ t. e.vnode_answer t root)
    emit (vnode_published root)
    if is_ok s
        then return_with (record v { tree = tree; device_id = id }) s root
        else return_with (record v { tree = tree; device_id = id; mount_count = v.mount_count - 1 })
            s root

  -- vmwfs_mount, where `device` says whether one is given, `id` is the volume's, and `raw` is what the
  -- memory of the new object holds. InitCheck of the deleted object is a fault. `out` is `*_rootID`.
  unfoldable pub vmwfs_mount : Volume → Bool → ℕ → Folders → M (Returned ℕ)
  vmwfs_mount v device id raw =
      if device
      then return v bad_value
      else if not (v.mount_count == 0)
      then return (record v { mount_count = v.mount_count + 1 }) unsupported
      else do
        got ← malloc e folders_size
        if not got then return v no_memory else do
          f ← construct_folders e raw io_size
          if not (is_ok f.init_check)
              then (do destroy_folders e f; checked none)
              else publish_root (record v { folders = f; mount_count = v.mount_count + 1 }) id

  -- vmwfs_unmount
  unfoldable pub vmwfs_unmount : Volume → M (Returned (Unit {0}))
  vmwfs_unmount v = do
    emit (vnode_put (inode_of v.tree.root))
    destroy_folders e v.folders
    return (record v { mount_count = v.mount_count - 1 }) ok

  -- vmwfs_read_fs_info
  unfoldable pub vmwfs_read_fs_info : Volume → M (Returned FsInfo)
  vmwfs_read_fs_info v = return_with v ok (record {
    block_size = fake_block_size;
    io_size_of = io_size;
    total_blocks = 4194304;
    free_blocks = 4194304;
    total_nodes = 0;
    free_nodes = 0;
  })

  -- vmwfs_write_fs_info
  unfoldable pub vmwfs_write_fs_info : Volume → M (Returned (Unit {0}))
  vmwfs_write_fs_info v = return v ok

  -- vmwfs_get_vnode; `out` is the node and what `*_type` is.
  unfoldable pub vmwfs_get_vnode : Volume → ℕ → M (Returned (ℕ × Mode))
  vmwfs_get_vnode v id = elim (find id v.tree.root) [
    | none ↦ return v entry_not_found
    | some n ↦ with_path e v id none λ _ text. do
      r ← get_attributes e v.folders text
      free
      let v' = record v { folders = r.folders }
      if not (is_ok r.status) then return v' r.status else do
        (a, is_dir) ← checked r.out
        return_with v' ok (
          id,
          record {
            user = record {
              readable = can_read a;
              writable = can_write a;
              executable = can_exec a;
            };
            group = record { readable = can_read a; writable = false; executable = can_exec a };
            others = record { readable = can_read a; writable = false; executable = can_exec a };
            directory = is_dir;
          },
        )
  ]
