-- ===== src/Machine/Laws.antt =====
-- What is read off a trace: which semaphores are held, what was allocated, what was sent.
use vmware_addons.Base.{
  ℕ, zero, suc, ◌+◌, ◌-◌, ◌≡◌, refl, List, [], ◌∷◌, Bytes, ◌==◌, if◌then◌else◌, length, suc, arith,
}
use vmware_addons.Machine.{
  Trace, Outcome, done, fault, panic, M, ◌>>=◌, port_in, port_out_bytes, port_in_bytes, acquired,
  released, allocated, freed, tabulate,
}

-- How often a semaphore is held.
abbrev pub held : ℕ → Trace → ℕ
held s [] = 0
held s (acquired r ∷ t) = (if r == s then 1 else 0) + held s t
held s (released r ∷ t) = held s t - (if r == s then 1 else 0)
held s (_ ∷ t) = held s t

-- How many port instructions ran while the semaphore was free.
abbrev pub unguarded : ℕ → Trace → ℕ
unguarded s [] = 0
unguarded s (port_in c ∷ t) = (if held s t == 0 then 1 else 0) + unguarded s t
unguarded s (port_out_bytes c bs ∷ t) = (if held s t == 0 then 1 else 0) + unguarded s t
unguarded s (port_in_bytes c ∷ t) = (if held s t == 0 then 1 else 0) + unguarded s t
unguarded s (_ ∷ t) = unguarded s t

-- How many port instructions ran.
abbrev pub port_calls : Trace → ℕ
port_calls [] = 0
port_calls (port_in c ∷ t) = suc (port_calls t)
port_calls (port_out_bytes c bs ∷ t) = suc (port_calls t)
port_calls (port_in_bytes c ∷ t) = suc (port_calls t)
port_calls (_ ∷ t) = port_calls t

-- The blocks allocated and not freed.
abbrev pub live : Trace → ℕ
live [] = 0
live (allocated n ∷ t) = suc (live t)
live (freed ∷ t) = live t - 1
live (_ ∷ t) = live t

-- The byte strings sent, the last first.
abbrev pub sent : Trace → List Bytes
sent [] = []
sent (port_out_bytes c bs ∷ t) = bs ∷ sent t
sent (_ ∷ t) = sent t

pub length-tabulate : (f : ℕ → ℕ) (i n : ℕ) → length (tabulate f i n) ≡ n
unfolding tabulate
length-tabulate f i zero = refl
length-tabulate f i (suc n) = omega (arith, length-tabulate f (i + 1) n)

-- A number read off the trace at which a run ends, or the given one where it ends in no trace.
abbrev pub at_end {ℓ} : {A : Type ℓ} → (Trace → ℕ) → ℕ → Outcome A → ℕ
at_end f d (done a t) = f t
at_end f d _ = d

-- The run ends, with a result and a trace as stated.
abbrev pub Returns {ℓ} : {A : Type ℓ} → (A → Trace → Type 0) → Outcome A → Type 0
Returns P (done a t) = P a t
Returns P fault = ⊥
Returns P panic = ⊥

-- A run goes on from what its first part guarantees.
pub Returns-bind {ℓ κ} :
    {A : Type ℓ} {B : Type κ} (P : A → Trace → Type 0) (Q : B → Trace → Type 0) (m : M A)
    (k : A → M B) (t : Trace)
    → Returns P (m t)
    → ((a : A) (t' : Trace) → P a t' → Returns Q (k a t'))
    → Returns Q ((m >>= k) t)
Returns-bind {A} P Q m k t h next = go (m t) h
  where
    go :
        (o : Outcome A)
        → Returns P o
        → Returns Q (elim o [ done a t' ↦ k a t' | fault ↦ fault | panic ↦ panic ])
    go (done a t') r = next a t' r
    go fault r = r
    go panic r = r

-- The same with a stronger guarantee.
pub Returns-mono {ℓ} :
    {A : Type ℓ} (P Q : A → Trace → Type 0) (o : Outcome A)
    → Returns P o
    → ((a : A) (t : Trace) → P a t → Q a t)
    → Returns Q o
Returns-mono P Q (done a t) h w = w a t h
Returns-mono P Q fault h w = h
Returns-mono P Q panic h w = h

-- What holds of the result, where the run has one.
abbrev pub Ensures {ℓ} : {A : Type ℓ} → (A → Type 0) → Outcome A → Type 0
Ensures P (done a t) = P a
Ensures P fault = Unit {0}
Ensures P panic = Unit {0}

pub Returns-Ensures {ℓ} :
    {A : Type ℓ} (P : A → Trace → Type 0) (Q : A → Type 0) (o : Outcome A)
    → Returns P o
    → Ensures Q o
    → Returns (λ a t. P a t × Q a) o
Returns-Ensures P Q (done a t) h g = (h, g)
Returns-Ensures P Q fault h g = h
Returns-Ensures P Q panic h g = h
