-- ===== src/Video/Benaphore/Exclusion.antt =====
-- What the benaphore of vmware_video/shared/DriverInterface.h guarantees for every interleaving.
use vmware_addons.Base.{
  ℕ, zero, suc, ◌+◌, ◌^◌, ◌<◌, ◌≤◌, ◌≡◌, inl, inr, List, [], ◌∷◌, some, ltb, set, get_elem?, cond,
  length, length-set, arith, Bool-cases,
}
use vmware_addons.Video.Benaphore.{
  Phase, outside, waiting, inside, leaving, Lock, init_ben, at_least, acquire_add, acquire_unit,
  release_add, release_unit, Step, enter, wake, leave, post, Steps, stay, then_,
}

-- How many threads are in phases with some weight.
abbrev pub total : (Phase → ℕ) → List Phase → ℕ
total w [] = 0
total w (p ∷ ps) = w p + total w ps

abbrev pub is_waiting : Phase → ℕ
is_waiting waiting = 1
is_waiting _ = 0

abbrev pub is_inside : Phase → ℕ
is_inside inside = 1
is_inside _ = 0

abbrev pub is_leaving : Phase → ℕ
is_leaving leaving = 1
is_leaving _ = 0

total-set :
    (w : Phase → ℕ) (ps : List Phase) (i : ℕ) (old new : Phase)
    → get_elem? ps i ≡ some old
    → total w (set ps i new) + w old ≡ total w ps + w new
total-set w [] i old new h = absurd cc
total-set w (p ∷ ps) zero old new h = let e : p ≡ old = cc in rw e (omega arith)
total-set w (p ∷ ps) (suc i) old new h = omega (arith, total-set w ps i old new h)

pub total-elem :
    (w : Phase → ℕ) (ps : List Phase) (i : ℕ) (p : Phase)
    → get_elem? ps i ≡ some p
    → w p ≤ total w ps
total-elem w [] i p h = absurd cc
total-elem w (q ∷ ps) zero p h = let e : q ≡ p = cc in rw e (omega arith)
total-elem w (q ∷ ps) (suc i) p h = omega (arith, total-elem w ps i p h)

-- The counter is the number of threads that wait or are inside. Of these there is one inside, or a unit in
-- the semaphore or about to be put there, but not two; and there is none where the counter is 0.
abbrev pub IsBalanced : Lock → Type 0
IsBalanced l =
    (length l.threads < 2 ^ 31)
    × (l.ben ≡ total is_waiting l.threads + total is_inside l.threads)
    × (total is_inside l.threads + l.sem + total is_leaving l.threads ≡ cond (ltb 0 l.ben) 1 0)

total-le : (w : Phase → ℕ) (ps : List Phase) → ((p : Phase) → w p ≤ 1) → total w ps ≤ length ps
total-le w [] h = omega arith
total-le w (p ∷ ps) h = omega (arith, h p, total-le w ps h)

pub total-two : (ps : List Phase) → total is_waiting ps + total is_inside ps ≤ length ps
total-two [] = omega arith
total-two (outside ∷ ps) = omega (arith, total-two ps)
total-two (waiting ∷ ps) = omega (arith, total-two ps)
total-two (inside ∷ ps) = omega (arith, total-two ps)
total-two (leaving ∷ ps) = omega (arith, total-two ps)

-- What one thread's change of phase does to the numbers.
moved :
    (l : Lock) (i : ℕ) (old new : Phase)
    → get_elem? l.threads i ≡ some old
    → (length (set l.threads i new) ≡ length l.threads)
      × (total is_waiting (set l.threads i new) + is_waiting old
          ≡ total is_waiting l.threads + is_waiting new)
      × (total is_inside (set l.threads i new) + is_inside old
          ≡ total is_inside l.threads + is_inside new)
      × (total is_leaving (set l.threads i new) + is_leaving old
          ≡ total is_leaving l.threads + is_leaving new)
      × (total is_waiting l.threads + total is_inside l.threads ≤ length l.threads)
      × (total is_waiting (set l.threads i new) + total is_inside (set l.threads i new)
          ≤ length (set l.threads i new))
moved l i old new h = (
  length-set l.threads i new,
  total-set is_waiting l.threads i old new h,
  total-set is_inside l.threads i old new h,
  total-set is_leaving l.threads i old new h,
  total-two l.threads,
  total-two (set l.threads i new),
)

step-IsBalanced : {l m : Lock} → Step l m → IsBalanced l → IsBalanced m
unfolding acquire_add acquire_unit release_add release_unit
step-IsBalanced (enter l i h) (few, count, one) = elim (Bool-cases (at_least 1 l.ben)) [
  | inl busy ↦ rw busy (ground (arith, moved l i outside waiting h))
  | inr free ↦ rw free (ground (arith, moved l i outside inside h))
]
step-IsBalanced (wake l i h some_) (few, count, one) = ground (arith, moved l i waiting inside h)
step-IsBalanced (leave l i h) (few, count, one) = elim (Bool-cases (at_least 2 l.ben)) [
  | inl busy ↦ rw busy (ground (arith, moved l i inside leaving h))
  | inr free ↦ rw free (ground (arith, moved l i inside outside h))
]
step-IsBalanced (post l i h) (few, count, one) = ground (arith, moved l i leaving outside h)

pub Steps-IsBalanced : {l m : Lock} → Steps l m → IsBalanced l → IsBalanced m
Steps-IsBalanced stay h = h
Steps-IsBalanced (then_ run step) h = step-IsBalanced step (Steps-IsBalanced run h)

-- All threads are outside.
abbrev pub AreOutside : List Phase → Type 0
AreOutside threads =
    total is_waiting threads + total is_inside threads + total is_leaving threads ≡ 0

pub init-IsBalanced :
    (threads : List Phase)
    → AreOutside threads
    → length threads < 2 ^ 31
    → IsBalanced (init_ben threads)
init-IsBalanced threads out few = (few, omega arith, omega arith)

-- For fewer than 2 ^ 31 threads, all outside when the benaphore is made, and after any steps in any
-- order: the counter is the number of threads that wait or are inside, and at most one is inside.
pub benaphore-exclusion :
    (threads : List Phase) (l : Lock)
    → AreOutside threads
    → length threads < 2 ^ 31
    → Steps (init_ben threads) l
    → (l.ben ≡ total is_waiting l.threads + total is_inside l.threads)
      × (total is_inside l.threads ≤ 1)
benaphore-exclusion threads l out few run =
    let (few', count, one) = Steps-IsBalanced run (init-IsBalanced threads out few) in
    (count, ground arith)
