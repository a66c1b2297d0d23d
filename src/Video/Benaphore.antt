-- ===== src/Video/Benaphore.antt =====
-- The benaphore of vmware_video/shared/DriverInterface.h: a counter and a semaphore. ACQUIRE_BEN and
-- RELEASE_BEN are each an atomic addition and, where there is contention, a call of the semaphore, so
-- other threads take steps between the two.
pub mod Exclusion
pub mod Progress
use vmware_addons.Base.{
  ℕ, zero, suc, ◌+◌, ◌-◌, ◌%◌, ◌^◌, ◌<◌, ◌≡◌, Bool, true, false, ◌&&◌, List, [], ◌∷◌, Option, none,
  some, ltb, set, get_elem?, cond,
}

-- Where a thread is: outside, between ACQUIRE_BEN's addition and its semaphore, inside, or between
-- RELEASE_BEN's addition and its semaphore.
pub data Phase : Type 0 where
  outside waiting inside leaving : Phase

-- `ben` is a pattern of `int32`; `sem` is the count of the semaphore; the threads by their number.
pub record Lock : Type 0 where
  pub ben : ℕ
  pub sem : ℕ
  pub threads : List Phase

-- INIT_BEN, with its threads outside.
abbrev pub init_ben : List Phase → Lock
init_ben threads = record { ben = 0; sem = 0; threads = threads }

-- `n <= value` for an `int32`, of which `value` is the pattern.
abbrev pub at_least : ℕ → ℕ → Bool
at_least n value = ltb (n - 1) value && ltb value (2 ^ 31)

-- The addition of ACQUIRE_BEN.
unfoldable pub acquire_add : Lock → ℕ → Lock
acquire_add l i = record {
  ben = (l.ben + 1) % 2 ^ 32;
  sem = l.sem;
  threads = set l.threads i (cond (at_least 1 l.ben) waiting inside);
}

-- `acquire_sem`, where the semaphore has a unit.
unfoldable pub acquire_unit : Lock → ℕ → Lock
acquire_unit l i = record { ben = l.ben; sem = l.sem - 1; threads = set l.threads i inside }

-- The addition of RELEASE_BEN.
unfoldable pub release_add : Lock → ℕ → Lock
release_add l i = record {
  ben = (l.ben + (2 ^ 32 - 1)) % 2 ^ 32;
  sem = l.sem;
  threads = set l.threads i (cond (at_least 2 l.ben) leaving outside);
}

-- `release_sem`
unfoldable pub release_unit : Lock → ℕ → Lock
release_unit l i = record { ben = l.ben; sem = l.sem + 1; threads = set l.threads i outside }

-- One step of one thread.
pub data Step : Lock → Lock → Type 0 where
  enter : (l : Lock) (i : ℕ) → get_elem? l.threads i ≡ some outside → Step l (acquire_add l i)
  wake :
      (l : Lock) (i : ℕ)
      → get_elem? l.threads i ≡ some waiting
      → 0 < l.sem
      → Step l (acquire_unit l i)
  leave : (l : Lock) (i : ℕ) → get_elem? l.threads i ≡ some inside → Step l (release_add l i)
  post : (l : Lock) (i : ℕ) → get_elem? l.threads i ≡ some leaving → Step l (release_unit l i)

-- What steps of any threads in any order can lead to.
pub data Steps : Lock → Lock → Type 0 where
  stay : {l : Lock} → Steps l l
  then_ : {l m n : Lock} → Steps l m → Step m n → Steps l n
