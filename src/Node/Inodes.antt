-- ===== src/Node/Inodes.antt =====
-- Inode numbers in the tree of VMWNode: none is used twice, and GetChild(ino_t) finds what
-- GetChild(const char*) has added.
use vmware_addons.Base.{
  ℕ, ◌+◌, ◌≡◌, ◌≤◌, ◌<◌, ◌↔◌, ◌*◌, Bool, true, Bytes, ◌==◌, if◌then◌else◌, arith, is_some,
}
use vmware_addons.Node.{
  Node, Children, node, end, item, Tree, leaf, find, find_in, append, append_at, append_in, unlink,
  unlink_at, unlink_in, get_child, delete_child_if_exists,
}

-- How many nodes have an inode number.
unfoldable mutual
  pub uses : ℕ → Node → ℕ
  uses k (node i name cs) = (if i == k then 1 else 0) + uses_in k cs

  pub uses_in : ℕ → Children → ℕ
  uses_in k end = 0
  uses_in k (item n cs) = uses k n + uses_in k cs

uses-append : (k : ℕ) (cs : Children) (n : Node) → uses_in k (append cs n) ≡ uses_in k cs + uses k n
unfolding uses append
uses-append k end n = omega arith
uses-append k (item m cs) n = omega (arith, uses-append k cs n)

mutual
  unfolding uses append_at

  pub uses-append_at :
      (root new : Node) (k at : ℕ)
      → uses k (append_at at new root) ≡ uses k root + uses at root * uses k new
  uses-append_at (node i name cs) new k at =
      ground (arith, uses-append_in cs new k at, uses-append k (append_in at new cs) new)

  uses-append_in :
      (cs : Children) (new : Node) (k at : ℕ)
      → uses_in k (append_in at new cs) ≡ uses_in k cs + uses_in at cs * uses k new
  uses-append_in end new k at = omega arith
  uses-append_in (item n cs) new k at =
      grind (arith, uses-append_at n new k at, uses-append_in cs new k at)

uses-unlink : (k : ℕ) (name : Bytes) (cs : Children) → uses_in k (unlink name cs) ≤ uses_in k cs
unfolding uses unlink
uses-unlink k name end = omega arith
uses-unlink k name (item n cs) = ground (arith, uses-unlink k name cs)

mutual
  unfolding uses unlink_at

  uses-unlink_at :
      (root : Node) (name : Bytes) (k at : ℕ) → uses k (unlink_at at name root) ≤ uses k root
  uses-unlink_at (node i n cs) name k at =
      ground (arith, uses-unlink_in cs name k at, uses-unlink k name (unlink_in at name cs))

  uses-unlink_in :
      (cs : Children) (name : Bytes) (k at : ℕ) → uses_in k (unlink_in at name cs) ≤ uses_in k cs
  uses-unlink_in end name k at = omega arith
  uses-unlink_in (item n cs) name k at =
      omega (arith, uses-unlink_at n name k at, uses-unlink_in cs name k at)

-- No inode number is used twice, and none from `next_inode` on is used.
pub record IsNumbered (t : Tree) : Type 0 where
  pub once : (k : ℕ) → uses k t.root ≤ 1
  pub fresh : (k : ℕ) → t.next_inode ≤ k → uses k t.root ≡ 0

-- Of a tree whose inode numbers are distinct and below `sCurrentInode`, GetChild makes such a tree,
-- with or without memory.
pub get_child-IsNumbered :
    (t : Tree) (self : ℕ) (name : Bytes) (memory : Bool)
    → IsNumbered t
    → IsNumbered (get_child t self name memory).1
unfolding get_child uses
get_child-IsNumbered t self name memory v = record {
  once = λ k. ground (
    arith,
    v.once k,
    v.once self,
    v.fresh k,
    uses-append_at t.root (leaf t.next_inode name) k self,
  );
  fresh = λ k h.
      ground (arith, v.fresh k, v.once self, uses-append_at t.root (leaf t.next_inode name) k self);
}

-- Of a tree whose inode numbers are distinct and below `sCurrentInode`, DeleteChildIfExists makes
-- such a tree.
delete_child_if_exists-IsNumbered :
    (t : Tree) (self : ℕ) (name : Bytes)
    → IsNumbered t
    → IsNumbered (delete_child_if_exists t self name)
unfolding delete_child_if_exists
delete_child_if_exists-IsNumbered t self name v = record {
  once = λ k. omega (arith, v.once k, uses-unlink_at t.root name k self);
  fresh = λ k h. omega (arith, v.fresh k h, uses-unlink_at t.root name k self);
}

mutual
  unfolding uses find

  -- The search finds a number exactly where it is used.
  pub find-uses : (root : Node) (k : ℕ) → (is_some (find k root) ≡ true) ↔ (0 < uses k root)
  find-uses (node i name cs) k = ground (arith, find_in-uses cs k)

  find_in-uses : (cs : Children) (k : ℕ) → (is_some (find_in k cs) ≡ true) ↔ (0 < uses_in k cs)
  find_in-uses end k = ground arith
  find_in-uses (item n cs) k = ground (arith, find-uses n k, find_in-uses cs k)
