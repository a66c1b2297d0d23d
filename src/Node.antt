-- ===== src/Node.antt =====
-- vmware_fs/VMWNode.{h,cpp}: the tree of the names that the file system has seen. A pointer to a node
-- is the node's inode number; `fParent` is found from the root. `sCurrentInode` is `next_inode`.
pub mod Paths
pub mod Inodes
pub mod Lookup
use vmware_addons.Base.{
  ℕ, zero, suc, ◌+◌, Bool, true, false, not, ◌||◌, Option, none, some, Bytes, ◌==◌, ltb, leb, cond,
  if◌then◌else◌, length, List, [], ◌∷◌, ◌++◌, same,
}

mutual
  -- The inode number, the name and the children, in the order of the linked list.
  pub data Node : Type 0 where
    node : ℕ → Bytes → Children → Node

  pub data Children : Type 0 where
    end : Children
    item : Node → Children → Children

pub record Tree : Type 0 where
  pub root : Node
  pub next_inode : ℕ

abbrev pub inode_of : Node → ℕ
inode_of (node i name cs) = i

abbrev pub name_of : Node → Bytes
name_of (node i name cs) = name

abbrev pub children_of : Node → Children
children_of (node i name cs) = cs

abbrev pub dot : Bytes
dot = b'.' ∷ []

abbrev pub dot_dot : Bytes
dot_dot = b'.' ∷ b'.' ∷ []

-- VMWNode::GetChild(ino_t)
unfoldable mutual
  pub find : ℕ → Node → Option Node
  find k (node i name cs) =
      let below = find_in k cs in elim (i == k) [ true ↦ some (node i name cs) | false ↦ below ]

  pub find_in : ℕ → Children → Option Node
  find_in k end = none
  find_in k (item n cs) =
      let later = find_in k cs in elim (find k n) [ none ↦ later | some found ↦ some found ]

-- The list walk of GetChild(const char*) and of DeleteChildIfExists.
unfoldable pub named : Bytes → Children → Option Node
named name end = none
named name (item n cs) = if same (name_of n) name then some n else named name cs

abbrev pub is_child : ℕ → Children → Bool
is_child k end = false
is_child k (item n cs) = inode_of n == k || is_child k cs

-- `fParent` of the node with an inode number.
unfoldable mutual
  pub parent : ℕ → Node → Option ℕ
  parent k (node i name cs) =
      let below = parent_in k cs in elim (is_child k cs) [ true ↦ some i | false ↦ below ]

  pub parent_in : ℕ → Children → Option ℕ
  parent_in k end = none
  parent_in k (item n cs) =
      let later = parent_in k cs in elim (parent k n) [ none ↦ later | some found ↦ some found ]

unfoldable pub append : Children → Node → Children
append end new = item new end
append (item n cs) new = item n (append cs new)

-- `item->next = newItem` in the node with an inode number.
unfoldable mutual
  pub append_at : ℕ → Node → Node → Node
  append_at k new (node i name cs) =
      let below = append_in k new cs in node i name (if i == k then append below new else below)

  pub append_in : ℕ → Node → Children → Children
  append_in k new end = end
  append_in k new (item n cs) = item (append_at k new n) (append_in k new cs)

-- Unlinks the first item of a name, with all below it.
unfoldable pub unlink : Bytes → Children → Children
unlink name end = end
unlink name (item n cs) = if same (name_of n) name then cs else item n (unlink name cs)

unfoldable mutual
  pub unlink_at : ℕ → Bytes → Node → Node
  unlink_at k name (node i n cs) =
      let below = unlink_in k name cs in node i n (if i == k then unlink name below else below)

  pub unlink_in : ℕ → Bytes → Children → Children
  unlink_in k name end = end
  unlink_in k name (item n cs) = item (unlink_at k name n) (unlink_in k name cs)

abbrev pub leaf : ℕ → Bytes → Node
leaf i name = node i name end

-- The children of the node with an inode number.
abbrev pub children_at : ℕ → Node → Children
children_at k root = elim (find k root) [ none ↦ end | some n ↦ children_of n ]

-- VMWNode::GetChild(const char*) of the node `self`, where `memory` says whether `malloc` succeeds.
-- The inode number of the child, if there is one, and the tree.
unfoldable pub get_child : Tree → ℕ → Bytes → Bool → Option ℕ × Tree
get_child t self name memory =
    if same name [] || same name dot
    then (some self, t)
    else if same name dot_dot
    then (some (elim (parent self t.root) [ none ↦ self | some p ↦ p ]), t)
    else elim (named name (children_at self t.root)) [
      | some n ↦ (some (inode_of n), t)
      | none ↦
          if memory
          then (
            some t.next_inode,
            record {
              root = append_at self (leaf t.next_inode name) t.root;
              next_inode = t.next_inode + 1;
            },
          )
          else (none, t)
    ]

-- VMWNode::DeleteChildIfExists of the node `self`.
unfoldable pub delete_child_if_exists : Tree → ℕ → Bytes → Tree
delete_child_if_exists t self name = record t { root = unlink_at self name t.root }

abbrev pub slash : Bytes
slash = b'/' ∷ []

abbrev pub path_tail : Option Bytes → Bytes
path_tail none = []
path_tail (some extra) = slash ++ extra

-- CopyPathTo from the parent's path on: `previousLength` and the string so far.
unfoldable pub extend_path : ℕ → ℕ → Bytes → Bytes → Option Bytes → Option (ℕ × Bytes)
extend_path buffer_length n text name extra =
    let separator = if ltb 0 n then slash else [] in
    let tail = path_tail extra in
    let new_length = n + length separator + length name + length tail in
    if leb buffer_length new_length
    then none
    else some (new_length, text ++ (separator ++ (name ++ tail)))

-- VMWNode::CopyPathTo: the names from the node up to the root's child, the node's own first, stand for
-- the node. The length returned and the string left in `buffer`, or `none` for -1.
unfoldable pub copy_path_to : List Bytes → ℕ → Option Bytes → Option (ℕ × Bytes)
copy_path_to [] buffer_length none = some (0, [])
copy_path_to [] buffer_length (some extra) =
    if same extra [] || same extra dot || same extra dot_dot
    then some (0, [])
    else if leb buffer_length (length extra)
    then none
    else some (length extra, extra)
copy_path_to (name ∷ parents) buffer_length none = elim (copy_path_to parents buffer_length none) [
  | none ↦ none
  | some (n, text) ↦ extend_path buffer_length n text name none
]
copy_path_to (name ∷ parents) buffer_length (some extra) =
    let previous = copy_path_to parents buffer_length none in
    if same extra dot_dot then previous else elim previous [
      | none ↦ none
      | some (n, text) ↦
          extend_path buffer_length n text name (if same extra dot then none else some extra)
    ]
