-- ===== src/Video/Benaphore/Progress.antt =====
-- The benaphore of vmware_video/shared/DriverInterface.h does not leave a thread waiting for ever: there
-- is always a way on.
use vmware_addons.Base.{
  ℕ, zero, suc, ◌+◌, ◌^◌, ◌<◌, ◌≡◌, ◌≢◌, ◌⊎◌, inl, inr, refl, ◌∙◌, true, List, [], ◌∷◌, some,
  get_elem?, set, length, get_elem?-set_self, get_elem?-set_ne, arith,
}
use vmware_addons.Video.Benaphore.{
  Phase, outside, waiting, inside, leaving, Lock, init_ben, at_least, acquire_unit, release_add,
  release_unit, wake, leave, post, Steps, stay, then_,
}
use vmware_addons.Video.Benaphore.Exclusion.{
  AreOutside, init-IsBalanced, is_inside, is_leaving, is_waiting, Steps-IsBalanced, total,
  total-elem, total-two,
}

elem-length : (ps : List Phase) (i : ℕ) (p : Phase) → get_elem? ps i ≡ some p → i < length ps
elem-length [] i p h = absurd cc
elem-length (q ∷ ps) zero p h = omega arith
elem-length (q ∷ ps) (suc i) p h = omega (arith, elem-length ps i p h)

find-inside : (ps : List Phase) → 0 < total is_inside ps → (i : ℕ) × (get_elem? ps i ≡ some inside)
find-inside [] h = absurd (omega arith)
find-inside (inside ∷ ps) h = (0, refl)
find-inside (outside ∷ ps) h = let (i, e) = find-inside ps (omega arith) in (suc i, e)
find-inside (waiting ∷ ps) h = let (i, e) = find-inside ps (omega arith) in (suc i, e)
find-inside (leaving ∷ ps) h = let (i, e) = find-inside ps (omega arith) in (suc i, e)

find-leaving :
    (ps : List Phase) → 0 < total is_leaving ps → (i : ℕ) × (get_elem? ps i ≡ some leaving)
find-leaving [] h = absurd (omega arith)
find-leaving (leaving ∷ ps) h = (0, refl)
find-leaving (outside ∷ ps) h = let (i, e) = find-leaving ps (omega arith) in (suc i, e)
find-leaving (waiting ∷ ps) h = let (i, e) = find-leaving ps (omega arith) in (suc i, e)
find-leaving (inside ∷ ps) h = let (i, e) = find-leaving ps (omega arith) in (suc i, e)

one-of : (a b c : ℕ) → 0 < a + b + c → (0 < a) ⊎ ((0 < b) ⊎ (0 < c))
one-of zero zero c h = inr (inr (omega arith))
one-of zero (suc b) c h = inr (inl (omega arith))
one-of (suc a) b c h = inl (omega arith)

-- Some steps let the thread in.
abbrev pub Admits : Lock → ℕ → Type 0
Admits l i = (m : Lock) × Steps l m × (get_elem? m.threads i ≡ some inside)

-- A waiting thread keeps waiting while another one moves.
still-waiting :
    (ps : List Phase) (i j : ℕ) (old new : Phase)
    → get_elem? ps i ≡ some waiting
    → get_elem? ps j ≡ some old
    → old ≢ waiting
    → get_elem? (set ps j new) i ≡ some waiting
still-waiting ps i j old new h k ne =
    get_elem?-set_ne ps new (λ e. ne (let q = rw e at k in cc)) ∙ h

module _ (start : Lock) (i : ℕ) where
  wakes :
      (l : Lock) → Steps start l → get_elem? l.threads i ≡ some waiting → 0 < l.sem → Admits start i
  unfolding acquire_unit
  wakes l run h unit = (
    acquire_unit l i,
    then_ run (wake l i h unit),
    get_elem?-set_self l.threads i inside (elem-length l.threads i waiting h),
  )

  posts :
      (l : Lock) (j : ℕ)
      → Steps start l
      → get_elem? l.threads i ≡ some waiting
      → get_elem? l.threads j ≡ some leaving
      → Admits start i
  unfolding release_unit
  posts l j run h k =
      wakes (release_unit l j) (then_ run (post l j k))
        (still-waiting l.threads i j leaving outside h k (λ e. cc)) (omega arith)

  leaves :
      (l : Lock) (j : ℕ)
      → Steps start l
      → get_elem? l.threads i ≡ some waiting
      → get_elem? l.threads j ≡ some inside
      → at_least 2 l.ben ≡ true
      → Admits start i
  unfolding release_add
  leaves l j run h k two =
      posts (release_add l j) j (then_ run (leave l j k))
        (rw two (still-waiting l.threads i j inside leaving h k (λ e. cc)))
        (rw two (get_elem?-set_self l.threads j leaving (elem-length l.threads j inside k)))

-- For fewer than 2 ^ 31 threads, all outside when the benaphore is made, and after any steps in any
-- order: each thread that waits can still get inside by further steps, so no order of additions loses a
-- wake-up.
pub benaphore-Admits :
    (threads : List Phase) (l : Lock) (i : ℕ)
    → AreOutside threads
    → length threads < 2 ^ 31
    → Steps (init_ben threads) l
    → get_elem? l.threads i ≡ some waiting
    → Admits l i
benaphore-Admits threads l i out few run h =
    let (few', count, one) = Steps-IsBalanced run (init-IsBalanced threads out few) in
    let ben : 0 < l.ben = omega (arith, total-elem is_waiting l.threads i waiting h) in
    elim (one-of (total is_inside l.threads) l.sem (total is_leaving l.threads) (ground arith)) [
      | inl busy ↦
          let (j, k) = find-inside l.threads busy in
          leaves l i l j stay h k (
            ground (
              arith,
              total-elem is_waiting l.threads i waiting h,
              total-elem is_inside l.threads j inside k,
              total-two l.threads,
            ))
      | inr (inl unit) ↦ wakes l i l stay h unit
      | inr (inr due) ↦ let (j, k) = find-leaving l.threads due in posts l i l j stay h k
    ]
