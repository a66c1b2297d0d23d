-- ===== src/Video/Driver/Areas.antt =====
-- OpenHook and FreeHook of vmware_video/kernel/device.c: which areas there are between them.
use vmware_addons.Base.{
  ℕ, ◌+◌, ◌-◌, ◌%◌, ◌^◌, ◌<◌, ◌≡◌, ◌⊎◌, inl, inr, refl, ap, ◌∙◌, true, false, Bool-cases, Option,
  none, some, ◌==◌, ltb, cond, bit_and, bit_or, arith,
}
use vmware_addons.Machine.{Status, is_ok}
use vmware_addons.Video.Driver.{
  Answers, Device, Kernel, Shared, check_capabilities, create_shared, delete_if, free_hook,
  free_shared, make_area, map_device, no_shared, open_created, open_hook, unmap_device,
}

-- Whether an area is this one.
abbrev pub is_area : Option ℕ → ℕ → ℕ
is_area none i = 0
is_area (some id) i = cond (i == id) 1 0

-- How often the device owns an area.
abbrev pub owned : Device → ℕ → ℕ
owned d i =
    is_area d.shared_area i
    + elim d.si [ none ↦ 0 | some s ↦ is_area s.fb_area i + is_area s.fifo_area i ]

-- The areas that are there are those of others and those of the device.
abbrev pub Owns : (ℕ → ℕ) → Device → Kernel → Type 0
Owns others d k = (i : ℕ) → k.live i ≡ others i + owned d i

-- A device that is not open has no memory; an open one has all three areas.
abbrev pub IsDevice : Device → Type 0
IsDevice d =
    ((d.is_open ≡ 0) × (d.shared_area ≡ none) × (d.si ≡ none))
    ⊎ ((0 < d.is_open) × (d.is_open < 2 ^ 32) × (s : Shared) × (d.si ≡ some s))

module _ (a : Answers) (others : ℕ → ℕ) where
  -- An area that is made is owned by the one who gets it.
  make_area-live :
      (k : Kernel) (i : ℕ) → (make_area a k).1.live i ≡ k.live i + is_area ((make_area a k).0) i
  make_area-live k i = ground arith

  delete_if-live :
      (area : Option ℕ) (k : Kernel) (i : ℕ) → (delete_if area k).live i ≡ k.live i - is_area area i
  delete_if-live none k i = omega arith
  delete_if-live (some id) k i = ground arith

  check_capabilities-live :
      (s : Shared) (k : Kernel) (i : ℕ) → (check_capabilities a s k).2.live i ≡ k.live i
  unfolding check_capabilities
  check_capabilities-live s k i = ground arith

  -- MapDevice makes the two areas, or fails and leaves none.
  map_device-live :
      (s : Shared) (k : Kernel) (i : ℕ)
      → (map_device a s k).2.live i
        ≡ k.live i
          + cond
              (is_ok (map_device a s k).0)
              (is_area ((map_device a s k).1.fb_area) i
                + is_area ((map_device a s k).1.fifo_area) i)
              0
  unfolding map_device
  map_device-live s k i = ground arith

  create_shared-live :
      (d : Device) (k : Kernel) (i : ℕ)
      → (create_shared a d k).2.live i ≡ k.live i + is_area ((create_shared a d k).1.shared_area) i
  unfolding create_shared
  create_shared-live d k i = ground arith

  create_shared-failed :
      (d : Device) (k : Kernel)
      → ((create_shared a d k).1.is_open ≡ d.is_open)
        × (is_ok (create_shared a d k).0 ≡ false
            → ((create_shared a d k).1.si ≡ d.si) × ((create_shared a d k).1.shared_area ≡ none))
  unfolding create_shared
  create_shared-failed d k = ground arith

  free_shared-live :
      (d : Device) (k : Kernel) (i : ℕ)
      → (free_shared a d k).1.live i ≡ k.live i - is_area d.shared_area i
  unfolding free_shared
  free_shared-live d k i = delete_if-live d.shared_area k i

  unmap_device-live :
      (s : Shared) (k : Kernel) (i : ℕ)
      → (unmap_device a s k).1.live i ≡ k.live i - is_area s.fifo_area i - is_area s.fb_area i
  unfolding unmap_device
  unmap_device-live s k i =
      let off : Kernel = record k { pci_command = bit_and k.pci_command 0xFFFD } in
      delete_if-live s.fb_area (delete_if s.fifo_area off) i
      ∙ ap (λ n. n - is_area s.fb_area i) (delete_if-live s.fifo_area off i)

  open_created-Owns :
      (d : Device) (s : Shared) (k : Kernel)
      → d.is_open ≡ 0
      → ((i : ℕ) → k.live i ≡ others i + is_area d.shared_area i)
      → Owns others ((open_created a d s k).1) ((open_created a d s k).2)
        × IsDevice ((open_created a d s k).1)
  unfolding open_created
  open_created-Owns d s k closed h =
      let c : Status × Shared × Kernel = check_capabilities a s k in
      let m : Status × Shared × Kernel = map_device a (c.1) (c.2) in
      elim (Bool-cases (is_ok c.0)) [
        | inr bad ↦
            rw (open_created, bad)
              (
                (λ i. omega (
                  arith,
                  delete_if-live d.shared_area (c.2) i,
                  check_capabilities-live s k i,
                  h i,
                )),
                inl (closed, refl, refl),
              )
        | inl good ↦ elim (Bool-cases (is_ok m.0)) [
          | inr unmapped ↦
              rw (open_created, good, unmapped)
                (
                  (λ i.
                      let none_made = rw unmapped at (map_device-live (c.1) (c.2) i) in
                      omega (
                        arith,
                        delete_if-live d.shared_area (m.2) i,
                        none_made,
                        check_capabilities-live s k i,
                        h i,
                      )),
                  inl (closed, refl, refl),
                )
          | inl mapped ↦
              rw (open_created, good, mapped)
                (
                  (λ i.
                      let both = rw mapped at (map_device-live (c.1) (c.2) i) in
                      omega (arith, both, check_capabilities-live s k i, h i)),
                  inr (rw closed (omega arith), rw closed (omega arith), m.1, refl),
                )
        ]
      ]

  idle-Owns :
      (e : Device) (k : Kernel)
      → e.is_open ≡ 0
      → e.shared_area ≡ none
      → e.si ≡ none
      → ((i : ℕ) → k.live i ≡ others i)
      → Owns others e k × IsDevice e
  idle-Owns e k closed no_area no_si h =
      ((λ i. rw (no_area, no_si) (omega (arith, h i))), inl (closed, no_area, no_si))

  -- OpenHook keeps the account of the areas, on every path, and the device well-formed, while fewer than
  -- 2 ^ 32 - 1 openers are counted.
  pub open_hook-Owns :
      (d : Device) (k : Kernel)
      → IsDevice d
      → d.is_open + 1 < 2 ^ 32
      → Owns others d k
      → Owns others ((open_hook a d k).1) ((open_hook a d k).2) × IsDevice ((open_hook a d k).1)
  unfolding open_hook
  open_hook-Owns d k (inl (closed, no_area, no_si)) few h =
      let on : Kernel = record k { pci_command = bit_or (bit_or k.pci_command 2) 1 } in
      let c : Status × Device × Kernel = create_shared a d on in
      let idle : (d.is_open == 0) ≡ true = ground arith in
      let (same_, failed) = create_shared-failed d on in
      let none_owned : (i : ℕ) → k.live i ≡ others i =
        λ i. (let o = rw (no_area, no_si) at (h i) in omega (arith, o)) in
      elim (Bool-cases (is_ok c.0)) [
        | inl good ↦
            rw (open_hook, idle, good)
              (open_created-Owns (c.1) no_shared (c.2) (same_ ∙ closed)
                (λ i. omega (arith, create_shared-live d on i, none_owned i)))
        | inr bad ↦
            rw (open_hook, idle, bad)
              (let (no_si', no_area') = failed bad in
                idle-Owns (c.1) (c.2) (same_ ∙ closed) no_area' (no_si' ∙ no_si) (λ i.
                  let live = rw no_area' at (create_shared-live d on i) in
                  omega (arith, live, none_owned i)))
      ]
  open_hook-Owns d k (inr (opened, word, s, has_si)) few h =
      let busy : (d.is_open == 0) ≡ false = ground arith in
      rw (open_hook, busy) (h, inr (omega arith, omega arith, s, has_si))

  pub free_hook-Owns :
      (d : Device) (k : Kernel)
      → IsDevice d
      → 0 < d.is_open
      → Owns others d k
      → (r : Device × Kernel) × (free_hook a d k ≡ some r)
        × (r.0.is_open ≡ d.is_open - 1)
        × Owns others (r.0) (r.1)
        × IsDevice (r.0)
  unfolding free_hook free_shared
  free_hook-Owns d k valid opened h = elim valid [
    | inl (closed, no_area, no_si) ↦ absurd (omega arith)
    | inr (o, word, s, has_si) ↦ elim (Bool-cases (ltb d.is_open 2)) [
      | inr several ↦
          let busy : ltb d.is_open 2 ≡ false = several in
          let less : (d.is_open + (2 ^ 32 - 1)) % 2 ^ 32 ≡ d.is_open - 1 = ground arith in
          (
            (record d { is_open = (d.is_open + (2 ^ 32 - 1)) % 2 ^ 32 }, k),
            rw (free_hook, busy) refl,
            less,
            h,
            inr (ground (arith, less), omega (arith, less), s, has_si),
          )
      | inl one ↦
          let off : Shared × Kernel = unmap_device a s k in
          let done_ : Device × Kernel = free_shared a (record d { si = some off.0 }) (off.1) in
          let last : (d.is_open + (2 ^ 32 - 1)) % 2 ^ 32 ≡ 0 = ground arith in
          (
            (record done_.0 { is_open = (d.is_open + (2 ^ 32 - 1)) % 2 ^ 32 }, done_.1),
            rw (free_hook, one, has_si) refl,
            ground (arith, last),
            (λ i.
                let own = rw has_si at (h i) in
                omega
                  (arith, own, delete_if-live d.shared_area (off.1) i, unmap_device-live s k i)),
            inl (last, refl, refl),
          )
    ]
  ]
