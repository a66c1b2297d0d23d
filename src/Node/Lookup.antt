-- ===== src/Node/Lookup.antt =====
-- GetChild on the tree: what it returns is a child of the node, under its name, and stays so.
use vmware_addons.Base.{
  ℕ, ◌≡◌, ◌⊎◌, ◌≤◌, ◌<◌, refl, Bool, true, Option, none, some, Bytes, if◌then◌else◌, arith, is_some,
  same, same_iff,
}
use vmware_addons.Node.{
  Node, Children, node, end, item, Tree, leaf, find, find_in, append, append_at, append_in,
  get_child, name_of, named, children_at,
}
use vmware_addons.Node.Inodes.{uses, uses_in, uses-append_at, IsNumbered, find-uses}

mutual
  unfolding uses append_at

  append_at-unused : (root new : Node) (at : ℕ) → uses at root ≡ 0 → append_at at new root ≡ root
  append_at-unused (node i name cs) new at h = ground (arith, append_in-unused cs new at)

  append_in-unused :
      (cs : Children) (new : Node) (at : ℕ) → uses_in at cs ≡ 0 → append_in at new cs ≡ cs
  append_in-unused end new at h = refl
  append_in-unused (item n cs) new at h =
      ground (arith, append_at-unused n new at, append_in-unused cs new at)

abbrev grown : Node → Option Node → Option Node
grown new none = none
grown new (some (node i name cs)) = some (node i name (append cs new))

mutual
  unfolding uses append_at find

  find-append_at :
      (root new : Node) (at : ℕ)
      → uses at root ≤ 1
      → uses at new ≡ 0
      → find at (append_at at new root) ≡ grown new (find at root)
  find-append_at (node i name cs) new at h z =
      ground (arith, append_in-unused cs new at, find_in-append_in cs new at)

  find_in-append_in :
      (cs : Children) (new : Node) (at : ℕ)
      → uses_in at cs ≤ 1
      → uses at new ≡ 0
      → find_in at (append_in at new cs) ≡ grown new (find_in at cs)
  find_in-append_in end new at h z = refl
  find_in-append_in (item n cs) new at h z =
      ground (arith, find-append_at n new at, find_in-append_in cs new at)

-- The name looked for stands at the end of what is appended, if not before.
abbrev or_else : Option Node → Option Node → Option Node
or_else none b = b
or_else (some a) b = some a

named-append :
    (name : Bytes) (cs : Children) (n : Node)
    → named name (append cs n)
      ≡ or_else (named name cs) (if same (name_of n) name then some n else none)
unfolding named append
named-append name end n = refl
named-append name (item m cs) n = ground (arith, named-append name cs n)

named-children_at :
    (root new : Node) (at : ℕ) (name : Bytes)
    → uses at root ≤ 1
    → uses at new ≡ 0
    → 0 < uses at root
    → named name (children_at at (append_at at new root))
      ≡ or_else
          (named name (children_at at root))
          (if same (name_of new) name then some new else none)
named-children_at root new at name once z there = go (find at root) refl
  where
    go :
        (r : Option Node)
        → find at root ≡ r
        → named name (children_at at (append_at at new root))
          ≡ or_else
              (named name (children_at at root))
              (if same (name_of new) name then some new else none)
    go none h = absurd (ground (arith, find-uses root at))
    go (some (node i m cs)) h =
        ground (arith, find-append_at root new at once z, named-append name cs new)

-- What GetChild returns for a node of the tree it returns again, with or without memory, and changes
-- nothing more; and either no inode number was used up or GetChild(ino_t) finds the new node.
pub get_child_again :
    (t : Tree) (self : ℕ) (name : Bytes) (memory later : Bool) (k : ℕ)
    → IsNumbered t
    → 0 < uses self t.root
    → (get_child t self name memory).0 ≡ some k
    → let t' = (get_child t self name memory).1 in
      (get_child t' self name later ≡ (some k, t'))
      × ((t'.next_inode ≡ t.next_inode) ⊎ (is_some (find k t'.root) ≡ true))
unfolding get_child uses
get_child_again t self name memory later k v there h = ground (
  arith,
  v.once self,
  v.fresh t.next_inode,
  v.fresh self,
  uses-append_at t.root (leaf t.next_inode name) t.next_inode self,
  find-uses (append_at self (leaf t.next_inode name) t.root) t.next_inode,
  named-children_at t.root (leaf t.next_inode name) self name,
  same_iff name name,
)
