-- ===== src/Fs/Entries.antt =====
-- vmwfs_read_dir of vmware_fs/dir_operations.cpp: the block that an entry is made in, and what is left
-- allocated.
use vmware_addons.Base.{
  ℕ, zero, suc, ◌+◌, ◌-◌, ◌*◌, ◌%◌, ◌^◌, ◌<◌, ◌≤◌, ◌≡◌, ◌⊎◌, inl, inr, refl, true, false, Bytes, [],
  ◌∷◌, Option, none, some, leb, drop, length, length-take, Bool-cases, Option-cases, arith,
}
use vmware_addons.Machine.{
  ◌>>=◌, ◌>>◌, Env, M, Trace, Outcome, done, fault, panic, Status, ok, entry_not_found, is_ok,
  allocated, checked, free,
}
use vmware_addons.Machine.Laws.{Ensures, Returns, Returns-bind, Returns-mono, Returns-Ensures, live}
use vmware_addons.Backdoor.Rpc.{Reply}
use vmware_addons.Backdoor.Rpc.Balance.{Kept}
use vmware_addons.Backdoor.Rpc.Safety.{LeavesRoom}
use vmware_addons.Folders.{Folders, Result}
use vmware_addons.Folders.Safety.{Called, IsValid, command}
use vmware_addons.Folders.Balance.{read_dir-Kept}
use vmware_addons.Folders.Transfers.{read_dir-Called}
use vmware_addons.Folders.Dirs.{c_string, read_dir, read_dir_answer, read_dir_pieces}
use vmware_addons.Node.{get_child}
use vmware_addons.Fs.{Volume, Returned, child, return, return_with}
use vmware_addons.Fs.Dirs.{DirCookie, put_entry, vmwfs_read_dir}

-- A string of at most `n` bytes, if any.
abbrev IsShort : ℕ → Option Bytes → Type 0
IsShort n none = Unit {0}
IsShort n (some s) = length s ≤ n

c_string-IsShort : (bs : Bytes) (n : ℕ) → IsShort n (c_string bs n)
unfolding c_string
c_string-IsShort bs zero = omega arith
c_string-IsShort [] (suc n) = tt
c_string-IsShort (c ∷ cs) (suc n) = ground (arith, c_string-IsShort cs n)

-- A success has a name of at most `n` bytes.
abbrev Named : ℕ → Result Bytes → Type 0
Named n r = (is_ok r.status ≡ false) ⊎ ((name : Bytes) × (r.out ≡ some name) × (length name ≤ n))

module _ (e : Env) (f : Folders) where
  read_dir_answer-Named :
      (n memory : ℕ) (reply : Reply) (t : Trace)
      → Ensures (Named ((n + 2 ^ 64 - 1) % 2 ^ 64)) (read_dir_answer e f n memory reply t)
  unfolding read_dir_answer
  read_dir_answer-Named n memory reply t =
      grind
        (arith, length-take, c_string-IsShort (drop 59 reply.buffer) ((n + 2 ^ 64 - 1) % 2 ^ 64))

  read_dir-Named :
      (handle index n memory : ℕ) (t : Trace)
      → Ensures (Named ((n + 2 ^ 64 - 1) % 2 ^ 64)) (read_dir e f handle index n memory t)
  unfolding read_dir
  read_dir-Named handle index n memory t = grind (arith, read_dir_answer-Named)

-- A run that ends has kept the number of live blocks.
Returns-Kept :
    {A : Type 0} (P : A → Trace → Type 0) (t : Trace) (o : Outcome A)
    → Returns P o
    → Kept t o
    → Returns (λ a u. P a u × (live u ≡ live t)) o
Returns-Kept P t (done a u) h k = (h, k)
Returns-Kept P t fault h k = h
Returns-Kept P t panic h k = h

get_child-next :
    (v : Volume) (self : ℕ) (name : Bytes)
    → let (k, tree) = get_child v.tree self name true in
      (tree.next_inode ≡ v.tree.next_inode) ⊎ (tree.next_inode ≡ v.tree.next_inode + 1)
unfolding get_child
get_child-next v self name = ground arith

-- There is memory for the copy of a name where there was just some for its node.
abbrev pub CopiesNames : Env → Type 0
CopiesNames e = (t : Trace) (n : ℕ) → e.malloc_answer (allocated 40 ∷ t) n ≡ true

-- GetChild takes three blocks for each node that it adds.
abbrev Grown : Volume → Trace → Option ℕ × Volume → Trace → Type 0
Grown v t (k, v') t' =
    (live t ≤ live t')
    × (live t' + 3 * v.tree.next_inode ≡ live t + 3 * v'.tree.next_inode)
    × (v'.folders ≡ v.folders)

child-Grown :
    (e : Env) (copies : CopiesNames e) (v : Volume) (self : ℕ) (name : Bytes) (t : Trace)
    → Returns (Grown v t) (child e v self name t)
unfolding child
child-Grown e copies v self name t = grind (arith, get_child-next v self name, copies)

-- What is stored: nothing on an error; no entry, and the cookie as it was; or one entry, and the next index.
abbrev pub Stepped : DirCookie → Returned (ℕ × DirCookie) → Type 0
Stepped cookie r =
    ((is_ok r.status ≡ false) × (r.out ≡ none))
    ⊎ ((r.status ≡ ok)
        × ((r.out ≡ some (0, cookie))
            ⊎ (r.out ≡ some (1, record cookie { index = (cookie.index + 1) % 2 ^ 32 }))))

-- Where the hook ends, three blocks are live for each node that it has added and for each that was live
-- before, less `n`, and the object is the given one.
abbrev Entered : ℕ → Volume → DirCookie → Trace → Returned (ℕ × DirCookie) → Trace → Type 0
Entered n v cookie t r t' =
    (live t' + 3 * v.tree.next_inode + n ≡ live t + 3 * r.volume.tree.next_inode)
    × (r.volume.folders ≡ v.folders)
    × Stepped cookie r

-- What ReadDir has done in vmwfs_read_dir, which has one block more.
abbrev Read : Volume → Trace → Bytes → ℕ → Result Bytes → Trace → Type 0
Read v t msg n r u =
    (Called v.folders msg t r u × Named ((n + 2 ^ 64 - 1) % 2 ^ 64) r) × (live u ≡ suc (live t))

-- What vmwfs_read_dir has to do.
abbrev pub Served : Volume → DirCookie → Trace → Returned (ℕ × DirCookie) → Trace → Type 0
Served v cookie t r t' =
    IsValid r.volume.folders
    × (live t' + 3 * v.tree.next_inode ≡ live t + 3 * r.volume.tree.next_inode)
    × Stepped cookie r

module _ (e : Env) (d_name_offset dirent_size : ℕ) (packed : dirent_size ≤ d_name_offset + 1)
    (copies : CopiesNames e) where
  put_entry-Entered :
      (v : Volume) (self : ℕ) (cookie : DirCookie) (buffer_size : ℕ) (name : Bytes) (t : Trace)
      → d_name_offset + length name + 1 ≤ buffer_size
      → 0 < live t
      → Returns
          (Entered 1 v cookie t)
          (put_entry e d_name_offset dirent_size v self cookie buffer_size name t)
  unfolding put_entry
  put_entry-Entered v self cookie buffer_size name t fits some_ =
      let in_ : leb (d_name_offset + length name + 1) buffer_size ≡ true = ground arith in
      let in' : leb ((dirent_size + length name) % 2 ^ 16) buffer_size ≡ true = ground arith in
      rw (put_entry, in_)
        (Returns-bind (Grown v t) (Entered 1 v cookie t) (child e v self name) _ t
          (child-Grown e copies v self name t)
          (λ a t' grown. elim (Option-cases a.0) [
            | inl none_ ↦ rw none_ (omega arith, grown.2, inl (refl, refl))
            | inr (inode, found) ↦ rw (found, in') (ground arith)
          ]))

  Read-Served :
      (v : Volume) (self : ℕ) (cookie : DirCookie) (buffer_size : ℕ) (msg : Bytes) (t : Trace)
      (r : Result Bytes) (u : Trace)
      → d_name_offset < buffer_size
      → buffer_size < 2 ^ 64
      → Read v t msg ((buffer_size + 2 ^ 64 - d_name_offset) % 2 ^ 64) r u
      → (s : Status) → r.status ≡ s
      → let v' = record v { folders = r.folders } in
        Returns (Served v cookie t) (
          (elim s as (λ x. M (Returned (ℕ × DirCookie))) [
            | entry_not_found ↦ do free; return_with v' ok (0, cookie)
            | ok ↦ do
              name ← checked r.out
              put_entry e d_name_offset dirent_size v' self cookie buffer_size name
            | s ↦ do free; return v' s
          ])
            u)
  Read-Served v self cookie buffer_size msg t r u fits small ((called, inl bad), alive) ok same_ =
      cc
  Read-Served v self cookie buffer_size msg t r u fits small
        ((called, inr (name, has, short)), alive) ok same_ =
      let v' : Volume = record v { folders = r.folders } in
      rw has (
        Returns-mono (Entered 1 v' cookie u) (Served v cookie t)
          (put_entry e d_name_offset dirent_size v' self cookie buffer_size name u)
          (put_entry-Entered v' self cookie buffer_size name u (omega arith) (omega arith))
          (λ a t' (blocks, kept, stepped). (rw kept called.1, omega arith, stepped)))
  Read-Served v self cookie buffer_size msg t r u fits small ((called, named), alive)
        entry_not_found same_ =
      (called.1, omega arith, inr (refl, inl refl))
  Read-Served v self cookie buffer_size msg t r u fits small ((called, named), alive) _ same_ =
      (called.1, omega arith, inl (refl, refl))

  -- In a block with room for the fields before the name and for one byte more, with a valid object that
  -- has room for the command, with a host that announces no reply of just the buffer's size, and with an
  -- allocator that has memory for the copy of a name where it just had some for its node, vmwfs_read_dir
  -- ends without an access outside memory, if `sizeof(struct dirent)` counts one byte of the name at
  -- most. The object stays valid, three blocks are left for each node that was added (its item, the node
  -- and its name) and no other, and it stores nothing with an error, no entry with the cookie as it was,
  -- or one entry with the next index.
  pub vmwfs_read_dir-Returns :
      (v : Volume) (self : ℕ) (cookie : DirCookie) (buffer_size : ℕ) (t : Trace)
      → IsValid v.folders
      → LeavesRoom e v.folders.rpc_buffer_size
      → 18 ≤ v.folders.rpc_buffer_size
      → d_name_offset < buffer_size
      → buffer_size < 2 ^ 64
      → Returns
          (Served v cookie t)
          (vmwfs_read_dir e d_name_offset dirent_size v self cookie buffer_size t)
  unfolding vmwfs_read_dir
  vmwfs_read_dir-Returns v self cookie buffer_size t valid room big fits small =
      elim (Bool-cases (e.malloc_answer t buffer_size)) [
        | inr none_ ↦ rw (◌>>=◌, none_) (valid, refl, inl (refl, refl))
        | inl some_ ↦
            let n : ℕ = (buffer_size + 2 ^ 64 - d_name_offset) % 2 ^ 64 in
            let memory : ℕ = buffer_size - d_name_offset in
            let u : Trace = allocated buffer_size ∷ t in
            let msg = command (read_dir_pieces cookie.handle cookie.index) in
            rw (◌>>=◌, some_)
              (Returns-bind (Read v t msg n) (Served v cookie t)
                (read_dir e v.folders cookie.handle cookie.index n memory) _ u
                (Returns-Kept
                  (λ r t'. Called v.folders msg u r t' × Named ((n + 2 ^ 64 - 1) % 2 ^ 64) r) u
                  (read_dir e v.folders cookie.handle cookie.index n memory u)
                  (Returns-Ensures (Called v.folders msg u) (Named ((n + 2 ^ 64 - 1) % 2 ^ 64))
                    (read_dir e v.folders cookie.handle cookie.index n memory u)
                    (read_dir-Called e v.folders valid room cookie.handle cookie.index n memory u
                      big (omega arith))
                    (read_dir-Named e v.folders cookie.handle cookie.index n memory u))
                  (read_dir-Kept e v.folders cookie.handle cookie.index n memory u))
                (λ r t' h.
                  Read-Served v self cookie buffer_size msg t r t' fits small h r.status refl))
      ]
