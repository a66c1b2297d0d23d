-- ===== src/Fs.antt =====
-- vmware_fs/*_operations.cpp: the file system's hooks. The globals are a `Volume`; a vnode's
-- private_node is the inode number of its VMWNode. A pointer to a node that is gone, and NULL, are
-- faults where they are followed.
pub mod Balance
pub mod Files
pub mod Loops
pub mod Stats
pub mod Mounting
pub mod Vnodes
pub mod Dirs
pub mod Entries
pub mod Volumes
use vmware_addons.Base.{
  ℕ, zero, suc, ◌+◌, ◌*◌, ◌-◌, ◌/◌, ◌%◌, ◌^◌, Bool, true, false, not, Option, none, some, Bytes,
  length, ◌==◌, List, [], ◌∷◌, cond,
}
use vmware_addons.Machine.{
  Env, M, Status, no_memory, buffer_overflow, pure, checked, malloc, free, if◌then◌else◌, ◌>>=◌,
  ◌>>◌,
}
use vmware_addons.Folders.{Folders}
use vmware_addons.Node.{Node, Children, node, end, item, Tree, name_of, get_child, copy_path_to}

-- gSharedFolders, gRootNode with sCurrentInode, gMountCount, gDeviceId, gLastNotification.
pub record Volume : Type 0 where
  pub folders : Folders
  pub tree : Tree
  pub mount_count : ℕ
  pub device_id : ℕ
  pub last_notification : ℕ

-- The result of a hook: its status, what it stored through its pointers, and the globals.
pub record Returned {ℓ} (A : Type ℓ) : Type ℓ where
  pub status : Status
  pub out : Option A
  pub volume : Volume

abbrev pub return {ℓ} : {A : Type ℓ} → Volume → Status → M (Returned A)
return v s = pure (record { status = s; out = none; volume = v })

abbrev pub return_with {ℓ} : {A : Type ℓ} → Volume → Status → A → M (Returned A)
return_with v s a = pure (record { status = s; out = some a; volume = v })

-- B_PATH_NAME_LENGTH, of Haiku's StorageDefs.h, and the sizes of vmwfs.h.
abbrev pub path_name_length : ℕ
path_name_length = 1024

abbrev pub fake_block_size : ℕ
fake_block_size = 512

abbrev pub io_size : ℕ
io_size = 4096

-- The names from a node up to the root's child.
unfoldable mutual
  pub names_up : ℕ → List Bytes → Node → Option (List Bytes)
  names_up k above (node i name cs) =
      let below = names_up_in k above cs in elim (i == k) [ true ↦ some above | false ↦ below ]

  pub names_up_in : ℕ → List Bytes → Children → Option (List Bytes)
  names_up_in k above end = none
  names_up_in k above (item n cs) =
      let later = names_up_in k above cs in
      elim (names_up k (name_of n ∷ above) n) [ none ↦ later | some found ↦ some found ]

-- `node->CopyPathTo(pathBuffer, B_PATH_NAME_LENGTH, name)`
abbrev pub copy_path : Volume → ℕ → Option Bytes → M (Option (ℕ × Bytes))
copy_path v self name = do
  names ← checked (names_up self [] v.tree.root)
  pure (copy_path_to names path_name_length name)

module _ (e : Env) where
  -- The first lines of the hooks: the path of a node, or of a name in it, in a block of its own that
  -- the rest frees.
  unfoldable pub with_path {ℓ} :
      {A : Type ℓ} → Volume → ℕ → Option Bytes → (ℕ → Bytes → M (Returned A)) → M (Returned A)
  with_path v self name rest = do
    got ← malloc e path_name_length
    if not got then return v no_memory else do
      path ← copy_path v self name
      elim path [ none ↦ do free; return v buffer_overflow | some (n, text) ↦ rest n text ]

  -- `node->GetChild(name)`, which takes memory for a new child alone: the item of the list, the VMWNode,
  -- and the copy of the name, whose length is asked for without a test.
  unfoldable pub child : Volume → ℕ → Bytes → M (Option ℕ × Volume)
  child v self name =
      let (k, tree) = get_child v.tree self name true in
      if tree.next_inode == v.tree.next_inode then pure (k, v) else do
        new_item ← malloc e 16
        if not new_item then pure (none, v) else do
          new_node ← malloc e 40
          if not new_node then (do free; pure (none, v)) else do
            copied ← malloc e (length name + 1)
            checked (cond copied (some (k, record v { tree = tree })) none)
