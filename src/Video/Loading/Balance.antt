-- ===== src/Video/Loading/Balance.antt =====
-- What vmware_video/kernel/driver.c finds on the bus, and what it holds.
use vmware_addons.Base.{
  ℕ, zero, suc, ◌+◌, ◌-◌, ◌<◌, ◌≤◌, ◌≡◌, inl, inr, refl, Bool, true, false, ◌&&◌, Bool-cases,
  Option-cases, Option, none, some, cond, arith, sym, ap, ◌∙◌,
}
use vmware_addons.Video.Driver.{new_device}
use mathlib.Core.Option.{some-injective}
use native.Mathlib.Decide.{dec_lt}
use vmware_addons.Machine.{Status, ok, error, is_ok}
use vmware_addons.Video.Loading.{
  Bus, DeviceData, Held, PciInfo, device_name, find_svga, init_driver, init_hardware, is_svga,
  no_device, uninit_driver,
}

-- The bus has `n` devices.
abbrev pub HasDevices : Bus → ℕ → Type 0
HasDevices b n = ((i : ℕ) → i < n → (p : PciInfo) × (b.nth i ≡ some p)) × (b.nth n ≡ none)

-- None of the devices from `i` to `n` is VMware's.
abbrev pub NoneFrom : Bus → ℕ → ℕ → Type 0
NoneFrom b i n = (j : ℕ) (p : PciInfo) → i ≤ j → j < n → b.nth j ≡ some p → is_svga p ≡ false

-- What the loop has to find: the first device of VMware from `i` on, or that there is none.
abbrev pub Found : Bus → ℕ → ℕ → Bool × PciInfo → Type 0
Found b i n (false, p) = NoneFrom b i n
Found b i n (true, p) =
    (k : ℕ) × (i ≤ k) × (k < n) × (b.nth k ≡ some p) × (is_svga p ≡ true) × NoneFrom b i k

module _ (b : Bus) (n : ℕ) (has : HasDevices b n) where
  NoneFrom-step :
      (i m : ℕ) (q : PciInfo)
      → b.nth i ≡ some q
      → is_svga q ≡ false
      → NoneFrom b (i + 1) m
      → NoneFrom b i m
  NoneFrom-step i m q here_ not_ rest j p lo hi e = elim (dec_lt i j) [
    | yes later ↦ rest j p (omega arith) hi e
    | no same_ ↦
        let at : j ≡ i = omega arith in
        let one : q ≡ p = some-injective _ _ (sym here_ ∙ sym (ap b.nth at) ∙ e) in
        sym (ap is_svga one) ∙ not_
  ]

  listed : (i : ℕ) (q : PciInfo) → i ≤ n → b.nth i ≡ some q → i < n
  listed i q in_ e = elim (dec_lt i n) [
    | yes lt ↦ lt
    | no ge ↦
        let at : i ≡ n = omega arith in
        let none_ : b.nth i ≡ none = ap b.nth at ∙ has.1 in absurd (cc)
  ]

  find_svga-Found :
      (fuel i : ℕ) (p : PciInfo)
      → i ≤ n
      → n < i + fuel
      → (r : Bool × PciInfo) × (find_svga b fuel i p ≡ some r) × Found b i n r
  unfolding find_svga
  find_svga-Found zero i p in_ enough = absurd (omega arith)
  find_svga-Found (suc fuel) i p in_ enough = elim (Option-cases (b.nth i)) [
    | inl end_ ↦
        let past : (j : ℕ) (q : PciInfo) → i ≤ j → j < n → b.nth j ≡ some q → is_svga q ≡ false =
          λ j q lo hi e. (let (p', e') = has.0 i (omega arith) in absurd (cc)) in
        ((false, p), rw (find_svga, end_) refl, past)
    | inr (q, here_) ↦
        let lt : i < n = listed i q in_ here_ in
        elim (Bool-cases (is_svga q)) [
          | inl good ↦ (
            (true, q),
            rw (find_svga, here_, good) refl,
            (i, omega arith, lt, here_, good, λ j p' lo hi e. absurd (omega arith)),
          )
          | inr bad ↦
              let (r, run, found) = find_svga-Found fuel (i + 1) q (omega arith) (omega arith) in
              (r, rw (find_svga, here_, bad) run, after i q r here_ bad found)
        ]
  ]
    where
      after :
          (i : ℕ) (q : PciInfo) (r : Bool × PciInfo)
          → b.nth i ≡ some q
          → is_svga q ≡ false
          → Found b (i + 1) n r
          → Found b i n r
      after i q (false, p) here_ bad h = NoneFrom-step i n q here_ bad h
      after i q (true, p) here_ bad (k, lo, hi, e, good, before) =
          (k, omega arith, hi, e, good, NoneFrom-step i k q here_ bad before)

-- The same is held.
abbrev pub Same : Held → Held → Type 0
Same h h' = (h'.modules ≡ h.modules) × (h'.blocks ≡ h.blocks) × (h'.sems ≡ h.sems)

-- What init_driver has to do on a bus of `n` devices: fail and hold nothing, or find the first device of VMware,
-- and hold what uninit_driver gives back.
abbrev pub Loaded : Bus → ℕ → Held → Status × Option DeviceData × Held → Type 0
Loaded b n h (status, none, h') = (is_ok status ≡ false) × Same h h'
Loaded b n h (status, some d, h') =
    (is_ok status ≡ true)
    × (h'.modules ≡ h.modules + 1)
    × Same h (uninit_driver d h')
    × ((k : ℕ) × (k < n) × (b.nth k ≡ some d.pcii) × (is_svga d.pcii ≡ true) × NoneFrom b 0 k)

agree : (b : Bus) (n : ℕ) (r s : Bool × PciInfo) → Found b 0 n r → Found b 0 n s → r.0 ≡ s.0
agree b n (true, p) (true, q) f g = refl
agree b n (false, p) (false, q) f g = refl
agree b n (true, p) (false, q) (k, lo, hi, e, good, before) g =
    let bad : is_svga p ≡ false = g k p lo hi e in cc
agree b n (false, p) (true, q) f (k, lo, hi, e, good, before) =
    let bad : is_svga q ≡ false = f k q lo hi e in cc

-- init_hardware with the module there, by what the loop finds.
init_hardware-found :
    (b : Bus) (fuel : ℕ) (stale : PciInfo) (h : Held) (r : Bool × PciInfo)
    → b.has_module ≡ true
    → find_svga b fuel 0 stale ≡ some r
    → (h' : Held) × (init_hardware b fuel stale h ≡ some (cond r.0 ok error, h')) × Same h h'
unfolding init_hardware
init_hardware-found b fuel stale h r there run = (
  record h { modules = h.modules + 1 - 1 },
  rw (init_hardware, there, run) refl,
  (omega arith, refl, refl),
)

-- init_driver with the module and memory there, by what the loop finds.
init_driver-Found :
    (b : Bus) (n fuel : ℕ) (h : Held) (r : Bool × PciInfo)
    → b.has_module ≡ true
    → b.has_memory ≡ true
    → find_svga b fuel 0 (record { vendor_id = 0; device_id = 0 }) ≡ some r
    → Found b 0 n r
    → (s : Status × Option DeviceData × Held) × (init_driver b fuel h ≡ some s)
      × Loaded b n h s
      × (is_ok s.0 ≡ r.0)
unfolding init_driver uninit_driver
init_driver-Found b n fuel h (false, p) there mem run f = (
  (no_device, none, record h { modules = h.modules + 1 - 1; blocks = h.blocks + 1 - 1 }),
  rw (init_driver, there, mem, run) refl,
  (refl, (omega arith, omega arith, refl)),
  refl,
)
init_driver-Found b n fuel h (true, p) there mem run (k, lo, hi, e, good, before) = (
  (
    ok,
    some (record {
      name = cond b.has_name (some device_name) none;
      has_sem = b.has_sem;
      device = new_device;
      pcii = p;
    }),
    record {
      modules = h.modules + 1;
      blocks = h.blocks + 1 + cond b.has_name 1 0;
      sems = h.sems + cond b.has_sem 1 0;
    },
  ),
  rw (init_driver, there, mem, run) refl,
  (refl, refl, (omega arith, name_back b.has_name, omega arith), (k, hi, e, good, before)),
  refl,
)
  where
    name_back :
        (c : Bool)
        → h.blocks
            + 1
            + cond c 1 0
            - elim (cond c (some device_name) none) [ none ↦ 0 | some m ↦ 1 ]
            - 1
          ≡ h.blocks
    name_back true = omega arith
    name_back false = omega arith

-- On a bus of `n` devices init_driver ends: it fails and holds what it held before, or it has found the first
-- device of VMware, and what it holds then is what uninit_driver gives back. init_hardware ends too, holds
-- what was held before, and init_driver succeeds just where that does and there is memory.
pub init_driver-Loaded :
    (b : Bus) (n fuel : ℕ) (stale : PciInfo) (h : Held)
    → HasDevices b n
    → n < fuel
    → (r : Status × Option DeviceData × Held) × (init_driver b fuel h ≡ some r)
      × Loaded b n h r
      × ((s : Status × Held) × (init_hardware b fuel stale h ≡ some s)
          × Same h s.1
          × (is_ok r.0 ≡ (is_ok s.0 && b.has_memory)))
unfolding init_driver init_hardware uninit_driver
init_driver-Loaded b n fuel stale h has enough = elim (Bool-cases b.has_module) [
  | inr gone ↦ (
    (error, none, h),
    rw (init_driver, gone) refl,
    (refl, (refl, refl, refl)),
    ((error, h), rw (init_hardware, gone) refl, (refl, refl, refl), refl),
  )
  | inl there ↦
      let (r, run, f) = find_svga-Found b n has fuel 0 stale (omega arith) (omega arith) in
      let (h', hard, same_) = init_hardware-found b fuel stale h r there run in
      elim (Bool-cases b.has_memory) [
        | inr no_memory ↦ (
          (error, none, record h { modules = h.modules + 1 - 1 }),
          rw (init_driver, there, no_memory) refl,
          (refl, (omega arith, refl, refl)),
          (_, hard, same_, without_memory (is_ok (cond r.0 ok error)) b.has_memory no_memory),
        )
        | inl mem ↦
            let (q, run', g) = find_svga-Found b n has fuel 0 _ (omega arith) (omega arith) in
            let (s, drive, loaded_, flag) = init_driver-Found b n fuel h q there mem run' g in
            (
              s,
              drive,
              loaded_,
              (
                _,
                hard,
                same_,
                flag
                    ∙ agree b n q r g f
                    ∙ is_ok-cond r.0
                    ∙ ap (λ m. is_ok (cond r.0 ok error) && m) (sym mem),
              ),
            )
      ]
]
  where
    without_memory : (c m : Bool) → m ≡ false → false ≡ (c && m)
    without_memory c m none_ = ground arith

    is_ok-cond : (c : Bool) → c ≡ (is_ok (cond c ok error) && true)
    is_ok-cond true = refl
    is_ok-cond false = refl
