-- ===== src/Video/Fifo/Ring.antt =====
-- The ring of vmware_video/accelerant/Fifo.c as a queue: positions, what stands between two of them, and
-- what one FifoWrite does.
use vmware_addons.Base.{
  ℕ, suc, ◌+◌, ◌-◌, ◌*◌, ◌/◌, ◌%◌, ◌^◌, ◌<◌, ◌≤◌, ◌≡◌, ◌≢◌, inl, inr, refl, sym, ◌∙◌, subst, true,
  false, ◌||◌, Bool-cases, some, List, [], ◌∷◌, ◌++◌, ◌==◌, ltb, cond, length, arith,
}
use native.Mathlib.Nat.{mod-eq_of_lt, mod_self}
use vmware_addons.Video.Fifo.{
  Fifo, fifo_end_write, fifo_sync, fifo_write, put, fifo_min_reg, fifo_max_reg, fifo_next_cmd_reg,
  fifo_stop_reg,
}

-- The position `k` words behind another one in a ring of `size` words.
abbrev pub ahead : ℕ → ℕ → ℕ → ℕ
ahead size p k = cond (ltb (p + k) size) (p + k) (p + k - size)

-- The words of memory from a position on, with `base` words before the ring.
abbrev pub Stands : (ℕ → ℕ) → ℕ → ℕ → ℕ → List ℕ → Type 0
Stands words base size p [] = Unit {0}
Stands words base size p (v ∷ vs) =
    (words (base + p) ≡ v) × Stands words base size (ahead size p 1) vs

-- A ring of `size` words behind the registers, whose positions for VMware to read, of NEXT_CMD and for the
-- next word are given.
pub record IsRing (f : Fifo) (base size stop next_cmd next : ℕ) : Type 0 where
  pub min_eq : f.words fifo_min_reg ≡ 4 * base
  pub max_eq : f.words fifo_max_reg ≡ 4 * (base + size)
  pub stop_eq : f.words fifo_stop_reg ≡ 4 * (base + stop)
  pub next_cmd_eq : f.words fifo_next_cmd_reg ≡ 4 * (base + next_cmd)
  pub next_eq : f.fifo_next ≡ 4 * (base + next)
  pub behind : 4 ≤ base
  pub small : base + size < 2 ^ 28
  pub stop_in : stop < size
  pub next_cmd_in : next_cmd < size
  pub next_in : next < size

pub ahead-suc :
    (size p k : ℕ) → p < size → k < size → ahead size p (suc k) ≡ ahead size (ahead size p 1) k
ahead-suc size p k lt few = ground arith

pub ahead-in : (size p k : ℕ) → p < size → k ≤ size → ahead size p k < size
ahead-in size p k lt few = ground arith

-- A command word for the host is put behind the others.
pub Stands-put :
    (words : ℕ → ℕ) (base size p : ℕ) (vs : List ℕ) (v : ℕ)
    → p < size
    → length vs < size
    → Stands words base size p vs
    → Stands (put words (base + ahead size p (length vs)) v) base size p (vs ++ (v ∷ []))
Stands-put words base size p [] v lt few h = (ground arith, tt)
Stands-put words base size p (u ∷ vs) v lt few (first, h) =
    let same_ : (base + p == base + ahead size p (suc (length vs))) ≡ false = ground arith in
    let next = ahead-suc size p (length vs) lt (omega arith) in
    let rest =
      Stands-put words base size (ahead size p 1) vs v (ahead-in size p 1 lt (omega arith))
        (omega arith) h in
    (
      rw same_ first,
      subst (λ k. Stands (put words (base + k) v) base size (ahead size p 1) (vs ++ (v ∷ [])))
          (sym next) rest,
    )

-- Registers stand in front of the ring.
pub Stands-register :
    (words : ℕ → ℕ) (base size p : ℕ) (vs : List ℕ) (at v : ℕ)
    → at < base
    → Stands words base size p vs
    → Stands (put words at v) base size p vs
Stands-register words base size p [] at v lt h = h
Stands-register words base size p (u ∷ vs) at v lt (first, h) =
    let other : (base + p == at) ≡ false = ground arith in
    (rw other first, Stands-register words base size (ahead size p 1) vs at v lt h)

-- The next position, as FifoWrite computes it.
next-position :
    (base size next : ℕ)
    → next < size
    → base + size < 2 ^ 28
    → (4 * base + (4 * (base + next) + 4 + (2 ^ 32 - 4 * base)) % 2 ^ 32 % (4 * size)) % 2 ^ 32
      ≡ 4 * (base + ahead size next 1)
next-position base size next lt small =
    let a : (4 * (base + next) + 4 + (2 ^ 32 - 4 * base)) % 2 ^ 32 ≡ 4 * (next + 1) = omega arith in
    elim (Bool-cases (ltb (next + 1) size)) [
      | inl inner ↦
          let b : 4 * (next + 1) % (4 * size) ≡ 4 * (next + 1) = mod-eq_of_lt (ground arith) in
          rw (a, b) (ground arith)
      | inr last ↦
          let e : next + 1 ≡ size = ground arith in
          let b : 4 * (next + 1) % (4 * size) ≡ 0 = rw e (mod_self (4 * size)) in
          rw (a, b) (ground arith)
    ]

-- What VMware does to the shared memory in a synchronisation.
abbrev pub IsSync : ((ℕ → ℕ) → ℕ → ℕ) → Type 0
IsSync sync =
    (words : ℕ → ℕ)
    → (sync words fifo_stop_reg ≡ words fifo_next_cmd_reg)
      × ((i : ℕ) → i ≢ fifo_stop_reg → sync words i ≡ words i)

module _ (sync : (ℕ → ℕ) → ℕ → ℕ) (f : Fifo) (base size stop next_cmd next v : ℕ)
    (r : IsRing f base size stop next_cmd next) where
  -- What FifoWrite makes of the ring where it is not full at NEXT_CMD.
  abbrev pub written : Fifo
  written = record f {
    words = put f.words (base + next) v;
    fifo_next = 4 * (base + ahead size next 1);
  }

  pub fifo_write-room : stop ≢ ahead size next_cmd 1 → fifo_write sync f v ≡ some written
  unfolding fifo_write
  fifo_write-room room =
      let capacity : (4 * (base + size) + (2 ^ 32 - 4 * base)) % 2 ^ 32 ≡ 4 * size =
        omega (arith, r.small) in
      let full : (4 * (base + stop) == (4 * (base + next_cmd) + 4) % 2 ^ 32
            || (4 * (base + stop) + 4 * size) % 2 ^ 32 == (4 * (base + next_cmd) + 4) % 2 ^ 32)
          ≡ false =
        ground (arith, r.small, r.stop_in, r.next_cmd_in) in
      let nonzero : (4 * size == 0) ≡ false = ground (arith, r.next_in) in
      let word : 4 * (base + next) / 4 ≡ base + next = omega arith in
      let kept : (0 == base + next) ≡ false = ground (arith, r.behind) in
      rw
        (
          r.max_eq, r.min_eq, r.stop_eq, r.next_cmd_eq, r.next_eq, capacity, full, nonzero, word,
          kept,
        )
        (rw (r.min_eq, next-position base size next r.next_in r.small) refl)

  pub written-IsRing : IsRing written base size stop next_cmd (ahead size next 1)
  written-IsRing =
      let k0 : (0 == base + next) ≡ false = ground (arith, r.behind) in
      let k1 : (1 == base + next) ≡ false = ground (arith, r.behind) in
      let k2 : (2 == base + next) ≡ false = ground (arith, r.behind) in
      let k3 : (3 == base + next) ≡ false = ground (arith, r.behind) in
      record {
        min_eq = rw k0 r.min_eq;
        max_eq = rw k1 r.max_eq;
        stop_eq = rw k3 r.stop_eq;
        next_cmd_eq = rw k2 r.next_cmd_eq;
        next_eq = refl;
        behind = r.behind;
        small = r.small;
        stop_in = r.stop_in;
        next_cmd_in = r.next_cmd_in;
        next_in = ahead-in size next 1 r.next_in (omega (arith, r.next_in));
      }

module _ (sync : (ℕ → ℕ) → ℕ → ℕ) (f : Fifo) (base size stop next_cmd next : ℕ)
    (r : IsRing f base size stop next_cmd next) where
  -- FifoEndWrite makes the words visible to VMware.
  pub end_write-IsRing : IsRing (fifo_end_write sync f) base size stop next next
  unfolding fifo_end_write
  end_write-IsRing = record {
    min_eq = r.min_eq;
    max_eq = r.max_eq;
    stop_eq = r.stop_eq;
    next_cmd_eq = r.next_eq;
    next_eq = r.next_eq;
    behind = r.behind;
    small = r.small;
    stop_in = r.stop_in;
    next_cmd_in = r.next_in;
    next_in = r.next_in;
  }

  pub sync-IsRing : IsSync sync → IsRing (fifo_sync sync f) base size next_cmd next_cmd next
  unfolding fifo_sync
  sync-IsRing works = record {
    min_eq = (works f.words).1 fifo_min_reg (omega arith) ∙ r.min_eq;
    max_eq = (works f.words).1 fifo_max_reg (omega arith) ∙ r.max_eq;
    stop_eq = (works f.words).0 ∙ r.next_cmd_eq;
    next_cmd_eq = (works f.words).1 fifo_next_cmd_reg (omega arith) ∙ r.next_cmd_eq;
    next_eq = r.next_eq;
    behind = r.behind;
    small = r.small;
    stop_in = r.next_cmd_in;
    next_cmd_in = r.next_cmd_in;
    next_in = r.next_in;
  }

  -- FifoWrite where the ring is full at NEXT_CMD goes on as from the synchronised ring, if that has room.
  pub fifo_write-full :
      (v : ℕ)
      → IsSync sync
      → stop ≡ ahead size next_cmd 1
      → 1 < size
      → fifo_write sync f v ≡ fifo_write sync (fifo_sync sync f) v
  unfolding fifo_write fifo_sync
  fifo_write-full v works full several =
      let s = sync-IsRing works in
      let capacity : (4 * (base + size) + (2 ^ 32 - 4 * base)) % 2 ^ 32 ≡ 4 * size =
        omega (arith, r.small) in
      let is_full : (4 * (base + stop) == (4 * (base + next_cmd) + 4) % 2 ^ 32
            || (4 * (base + stop) + 4 * size) % 2 ^ 32 == (4 * (base + next_cmd) + 4) % 2 ^ 32)
          ≡ true =
        ground (arith, r.small, r.stop_in, r.next_cmd_in) in
      let not_full : (4 * (base + next_cmd) == (4 * (base + next_cmd) + 4) % 2 ^ 32
            || (4 * (base + next_cmd) + 4 * size) % 2 ^ 32 == (4 * (base + next_cmd) + 4) % 2 ^ 32)
          ≡ false =
        ground (arith, r.small, r.next_cmd_in) in
      rw
        (
          s.max_eq, s.min_eq, s.stop_eq, s.next_cmd_eq, r.max_eq, r.min_eq, r.stop_eq,
          r.next_cmd_eq, capacity, is_full, not_full,
        )
        refl
