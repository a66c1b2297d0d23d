-- ===== src/Machine.antt =====
-- What the add-ons run on: the registers of regs_t, the hypervisor's port, and the kernel calls they
-- make. None of it is code of the repository, so every answer is a function of what happened before,
-- a parameter `Env`; what a function does to the outside is the list of its events.
pub mod Laws
use vmware_addons.Base.{
  ℕ, zero, suc, ◌+◌, ◌-◌, ◌%◌, ◌^◌, Bool, true, false, List, [], ◌∷◌, Option, none, some, Bytes,
  ◌==◌, ltb, cond, ◌&&◌, read_at, write_at,
}

-- status_t, by the codes that the sources name.
pub data Status : Type 0 where
  ok error not_allowed no_memory buffer_overflow unsupported entry_not_found : Status
  permission_denied file_exists directory_not_empty name_in_use bad_address bad_value : Status
  interrupted device_full dev_invalid_ioctl : Status
  other : ℕ → Status

abbrev pub is_ok : Status → Bool
is_ok ok = true
is_ok _ = false

-- The registers at the port instruction.
pub record Cpu : Type 0 where
  pub eax : ℕ
  pub ebx : ℕ
  pub ecx : ℕ
  pub edx : ℕ
  pub esi : ℕ
  pub edi : ℕ
  pub ebp : ℕ

-- One interaction with the hypervisor, the kernel or the caller's memory.
pub data Event : Type 0 where
  port_in : Cpu → Event
  port_out_bytes : Cpu → Bytes → Event
  port_in_bytes : Cpu → Event
  acquired refused released : ℕ → Event
  sem_created sem_deleted : ℕ → Event
  allocated alloc_failed : ℕ → Event
  freed : Event
  copied_to_user : Bytes → Event
  copied_from_user : ℕ → Event
  bad_user_address : Event
  entry_created entry_removed : ℕ → Bytes → ℕ → Event
  entry_moved : ℕ → Bytes → ℕ → Bytes → ℕ → Event
  stat_changed : ℕ → ℕ → ℕ → Event
  vnode_wanted vnode_published vnode_put : ℕ → Event
  asked_time : Event

-- Newest first.
abbrev pub Trace : Type 0
Trace = List Event

-- The answers of the hypervisor, the kernel and the allocator, whatever they may be.
pub record Env : Type 0 where
  pub port_in_answer : Trace → Cpu → Cpu
  pub port_out_answer : Trace → Cpu → Bytes → Cpu
  pub port_in_bytes_answer : Trace → Cpu → Cpu
  pub byte_answer : Trace → Cpu → ℕ → ℕ
  pub acquire_answer : Trace → ℕ → Status
  pub create_sem_answer : Trace → Status × ℕ
  pub malloc_answer : Trace → ℕ → Bool
  pub user_memcpy_answer : Trace → ℕ → Status
  pub vnode_answer : Trace → ℕ → Status
  pub time_answer : Trace → ℕ
  -- Whether the first port instruction raises a signal, as it does on real hardware.
  pub port_crashes : Bool

-- A run ends with a value and the events so far, at an access outside its memory, or in `panic()`.
pub data Outcome {ℓ} (A : Type ℓ) : Type ℓ where
  done : A → Trace → Outcome A
  fault panic : Outcome A

abbrev pub M {ℓ} : Type ℓ → Type ℓ
M A = Trace → Outcome A

abbrev pub pure {ℓ} : {A : Type ℓ} → A → M A
pure a t = done a t

infixl 5 ◌>>=◌ ◌>>◌
abbrev pub ◌>>=◌ {ℓ κ} : {A : Type ℓ} {B : Type κ} → M A → (A → M B) → M B
◌>>=◌ m f t = elim (m t) [ done a t' ↦ f a t' | fault ↦ fault | panic ↦ panic ]

abbrev pub ◌>>◌ {ℓ κ} : {A : Type ℓ} {B : Type κ} → M A → M B → M B
m >> k = m >>= λ _. k

-- The conditional on runs: the chosen one gets the trace.
infix 1 if◌then◌else◌
abbrev pub if◌then◌else◌ {ℓ} : {A : Type ℓ} → Bool → M A → M A → M A
if◌then◌else◌ true m k t = m t
if◌then◌else◌ false m k t = k t

abbrev pub emit : Event → M (Unit {0})
emit ev t = done tt (ev ∷ t)

-- The answer to a question about the past.
abbrev pub ask {ℓ} : {A : Type ℓ} → (Trace → A) → M A
ask f t = done (f t) t

abbrev pub log {ℓ} : {A : Type ℓ} → Event → A → M A
log ev a t = done a (ev ∷ t)

-- A checked access: `none` is outside the memory.
abbrev pub checked {ℓ} : {A : Type ℓ} → Option A → M A
checked none t = fault
checked (some a) t = done a t

-- `ASSERT(x)`
abbrev pub assert : Bool → M (Unit {0})
assert true t = done tt t
assert false t = panic

abbrev pub load : Bytes → ℕ → ℕ → M Bytes
load buf off n = checked (read_at buf off n)

abbrev pub store : Bytes → ℕ → Bytes → M Bytes
store buf off bs = checked (write_at buf off bs)

-- `f 0, f 1, ..., f (n - 1)` from an index on.
unfoldable pub tabulate : (ℕ → ℕ) → ℕ → ℕ → Bytes
tabulate f i zero = []
tabulate f i (suc n) = f i % 256 ∷ tabulate f (i + 1) n

abbrev pub release_sem : ℕ → M (Unit {0})
release_sem s = emit (released s)

abbrev pub free : M (Unit {0})
free = emit freed

module _ (e : Env) where
  -- `inl (%dx)`
  abbrev pub port_in_call : Cpu → M Cpu
  port_in_call c t = done (e.port_in_answer t c) (port_in c ∷ t)

  -- `rep outsb`: `ecx` bytes go out.
  abbrev pub port_out_call : Cpu → Bytes → M Cpu
  port_out_call c bs t = done (e.port_out_answer t c bs) (port_out_bytes c bs ∷ t)

  -- `rep insb`: `ecx` bytes come in.
  abbrev pub port_in_bytes_call : Cpu → M (Cpu × Bytes)
  port_in_bytes_call c t =
      done (e.port_in_bytes_answer t c, tabulate (e.byte_answer t c) 0 c.ecx) (port_in_bytes c ∷ t)

  abbrev pub acquire_sem : ℕ → M Status
  acquire_sem s = do
    a ← ask (λ t. e.acquire_answer t s)
    if is_ok a then log (acquired s) a else log (refused s) a

  abbrev pub create_sem : M (Status × ℕ)
  create_sem = do a ← ask e.create_sem_answer; if is_ok a.0 then log (sem_created a.1) a else pure a

  abbrev pub malloc : ℕ → M Bool
  malloc n = do
    got ← ask (λ t. e.malloc_answer t n)
    if got then log (allocated n) true else log (alloc_failed n) false

  -- Copies from the caller's memory.
  abbrev pub user_read : ℕ → M Status
  user_read n = do
    a ← ask (λ t. e.user_memcpy_answer t n)
    if is_ok a then log (copied_from_user n) a else log bad_user_address a

  -- Copies to the caller's memory.
  abbrev pub user_write : Bytes → ℕ → M Status
  user_write bs n = do
    a ← ask (λ t. e.user_memcpy_answer t n)
    if is_ok a then log (copied_to_user bs) a else log bad_user_address a
