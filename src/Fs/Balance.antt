-- ===== src/Fs/Balance.antt =====
-- The memory that the hooks allocate: their path buffers are freed on every branch.
use vmware_addons.Base.{◌∷◌, refl, ℕ, ◌+◌, ◌≡◌, Bool, Option, none, Bytes, cond, is_some, arith}
use vmware_addons.Machine.{◌>>=◌, allocated, Env, M, Trace, Outcome, done, fault, panic}
use vmware_addons.Machine.Laws.{live, at_end}
use vmware_addons.Backdoor.Rpc.Balance.{Kept}
use vmware_addons.Folders.Balance.{get_attributes-Kept, open_dir-Kept}
use vmware_addons.Folders.Entries.{get_attributes}
use vmware_addons.Fs.{Volume, Returned, with_path, path_name_length}
use vmware_addons.Fs.Vnodes.{vmwfs_access, vmwfs_read_stat}
use vmware_addons.Fs.Dirs.{vmwfs_open_dir, DirCookie}

-- Where the run ends, `n` blocks are live.
abbrev Leaves {ℓ} : {A : Type ℓ} → ℕ → Outcome A → Type 0
Leaves n o = at_end live n o ≡ n

Leaves-bind {ℓ κ} :
    {A : Type ℓ} {B : Type κ} (n : ℕ) (m : M A) (k : A → M B) (t : Trace)
    → Kept t (m t)
    → ((a : A) (u : Trace) → live u ≡ live t → Leaves n (k a u))
    → Leaves n ((m >>= k) t)
Leaves-bind {A} n m k t h next = go (m t) h
  where
    go :
        (o : Outcome A)
        → Kept t o
        → Leaves n (elim o [ done a u ↦ k a u | fault ↦ fault | panic ↦ panic ])
    go (done a u) r = next a u r
    go fault r = refl
    go panic r = refl

-- Where the run ends, one block more is live if it has stored a cookie, and as many as before if not.
abbrev pub Held : Trace → Outcome (Returned DirCookie) → Type 0
Held t (done r u) = live u ≡ live t + cond (is_some r.out) 1 0
Held t _ = Unit {0}

module _ (e : Env) where
  with_path-Kept {ℓ} :
      {A : Type ℓ} (v : Volume) (self : ℕ) (name : Option Bytes) (rest : ℕ → Bytes → M (Returned A))
      (t : Trace)
      → ((n : ℕ) (text : Bytes) → Leaves (live t) (rest n text (allocated path_name_length ∷ t)))
      → Kept t (with_path e v self name rest t)
  unfolding with_path
  with_path-Kept v self name rest t h = grind (arith, h)

  -- vmwfs_access frees its path buffer on every branch: where it ends, as many blocks are live as
  -- before.
  vmwfs_access-Kept :
      (v : Volume) (self : ℕ) (read write exec : Bool) (t : Trace)
      → Kept t (vmwfs_access e v self read write exec t)
  unfolding vmwfs_access
  vmwfs_access-Kept v self read write exec t = with_path-Kept v self none _ t (λ n text.
      Leaves-bind (live t) (get_attributes e v.folders text) _ (allocated path_name_length ∷ t)
        (get_attributes-Kept e v.folders text (allocated path_name_length ∷ t))
        (λ a u h. ground (arith, h)))

  -- vmwfs_read_stat frees its path buffer on every branch: where it ends, as many blocks are live as
  -- before.
  vmwfs_read_stat-Kept : (v : Volume) (self : ℕ) (t : Trace) → Kept t (vmwfs_read_stat e v self t)
  unfolding vmwfs_read_stat
  vmwfs_read_stat-Kept v self t = with_path-Kept v self none _ t (λ n text.
      Leaves-bind (live t) (get_attributes e v.folders text) _ (allocated path_name_length ∷ t)
        (get_attributes-Kept e v.folders text (allocated path_name_length ∷ t))
        (λ a u h. ground (arith, h)))

  -- vmwfs_access and vmwfs_read_stat free their path buffers on every branch: where they end, as many blocks
  -- are live as before.
  with_attributes-Kept :
      (v : Volume) (self : ℕ) (read write exec : Bool) (t : Trace)
      → Kept t (vmwfs_access e v self read write exec t) × Kept t (vmwfs_read_stat e v self t)
  with_attributes-Kept v self read write exec t =
      (vmwfs_access-Kept v self read write exec t, vmwfs_read_stat-Kept v self t)

  -- vmwfs_open_dir frees its path buffer on every branch, and its cookie on every branch but the
  -- successful one.
  vmwfs_open_dir-Held : (v : Volume) (self : ℕ) (t : Trace) → Held t (vmwfs_open_dir e v self t)
  unfolding vmwfs_open_dir
  vmwfs_open_dir-Held v self t = grind (arith, open_dir-Kept)
