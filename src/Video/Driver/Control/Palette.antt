-- ===== src/Video/Driver/Control/Palette.antt =====
-- What the requests of ControlHook in vmware_video/kernel/device.c do to the device and its registers.
use vmware_addons.Base.{
  ℕ, zero, suc, ◌+◌, ◌*◌, ◌%◌, ◌^◌, ◌<◌, ◌≤◌, ◌≡◌, inl, inr, refl, ◌∙◌, Bool, true, false, not,
  Bool-cases, Option, none, some, Bytes, List, [], ◌∷◌, ◌==◌, ltb, cond, get_or, if◌then◌else◌,
  arith,
}
use vmware_addons.Machine.{Status, ok, error, bad_address}
use vmware_addons.Video.Driver.{Answers, Device, Kernel, Shared, write_reg}
use vmware_addons.Video.Driver.Areas.{owned}
use vmware_addons.Video.Driver.Control.{
  Ioctl, control_hook, get_accelerant_signature, get_private_data, fifo_start, fifo_stop, fifo_sync,
  get_device_name, set_mode, set_palette, move_cursor, show_cursor, another_request, palette_base,
  update_cursor, wait_idle, write_palette,
}

-- The value last written to a register, or one for those that were not.
abbrev pub last_value : List (ℕ × ℕ) → ℕ → ℕ → ℕ
last_value [] i d = d
last_value (w ∷ ws) i d = cond (i == w.0) w.1 (last_value ws i d)

-- The three writes of one colour.
colour :
    (i : ℕ) (colors : Bytes) (k : Kernel) (j : ℕ)
    → 3 * i ≤ j
    → j < 3 * (i + 1)
    → last_value
        (write_reg (palette_base + 3 * i + 2) (get_or colors (3 * i + 2) 0) (
          write_reg
            (palette_base + 3 * i + 1)
            (get_or colors (3 * i + 1) 0)
            (write_reg (palette_base + 3 * i) (get_or colors (3 * i) 0) k))).written
        (palette_base + j)
        0
      ≡ get_or colors j 0 % 2 ^ 32
colour i colors k j from below = grind arith

write_palette-value :
    (left i : ℕ) (colors : Bytes) (k : Kernel) (j : ℕ)
    → (3 * i ≤ j
        → j < 3 * (i + left)
        → last_value (write_palette left i colors k).written (palette_base + j) 0
          ≡ get_or colors j 0 % 2 ^ 32)
      × ((j < 3 * i)
          → last_value (write_palette left i colors k).written (palette_base + j) 0
            ≡ last_value k.written (palette_base + j) 0)
unfolding write_palette
write_palette-value zero i colors k j = ((λ a b. absurd (omega arith)), (λ a. refl))
write_palette-value (suc left) i colors k j =
    let one : Kernel = write_reg (palette_base + 3 * i + 2) (get_or colors (3 * i + 2) 0) (
      write_reg (palette_base + 3 * i + 1) (get_or colors (3 * i + 1) 0)
        (write_reg (palette_base + 3 * i) (get_or colors (3 * i) 0) k)) in
    let (later, earlier) = write_palette-value left (i + 1) colors one j in
    (
      (λ from below. elim (Bool-cases (ltb j (3 * (i + 1)))) [
        | inr after ↦ later (ground arith) (omega arith)
        | inl here ↦ earlier (ground arith) ∙ colour i colors k j from (ground arith)
      ]),
      (λ before. earlier (omega arith) ∙ ground arith),
    )

module _ (a : Answers) (fuel : ℕ) (d : Device) (s : Shared) where
  -- Where the colours can be read and the device says that it has a palette, VMWARE_SET_PALETTE ends with
  -- B_OK, and each of the 768 palette registers holds its byte of the colours.
  pub set_palette-value :
      (colors : Bytes) (k : Kernel) (j : ℕ)
      → a.reachable k ≡ true
      → a.register k 8 ≡ 1
      → j < 768
      → (k' : Kernel) × (control_hook a fuel d s (set_palette colors) k ≡ some (ok, d, k'))
        × (last_value k'.written (palette_base + j) 0 ≡ get_or colors j 0 % 2 ^ 32)
  unfolding control_hook
  set_palette-value colors k j near one lt =
      let pseudo : (a.register k 8 == 1) ≡ true = ground arith in
      (
        write_palette 256 0 colors (record k { reads = k.reads + 1 }),
        rw (near, pseudo) refl,
        (write_palette-value 256 0 colors (record k { reads = k.reads + 1 }) j).0 (omega arith)
            (omega arith),
      )

write_palette-live :
    (left i : ℕ) (colors : Bytes) (k : Kernel) (id : ℕ)
    → (write_palette left i colors k).live id ≡ k.live id
unfolding write_palette
write_palette-live zero i colors k id = refl
write_palette-live (suc left) i colors k id = write_palette-live left (i + 1) colors _ id

-- The areas are as they were, and the device has its memory, owns the same areas and is open as often as
-- before.
abbrev pub Kept : Device → Kernel → Option (Status × Device × Kernel) → Type 0
Kept d k none = Unit {0}
Kept d k (some (st, d', k')) =
    (d'.is_open ≡ d.is_open)
    × ((s : Shared) × (d'.si ≡ some s))
    × ((i : ℕ) → (k'.live i ≡ k.live i) × (owned d' i ≡ owned d i))

palette-Kept :
    (near pseudo : Bool) (d : Device) (s : Shared) (k k1 k2 : Kernel)
    → d.si ≡ some s
    → ((i : ℕ) → k1.live i ≡ k.live i)
    → ((i : ℕ) → k2.live i ≡ k.live i)
    → Kept d k (
        some (
          if not near
          then (bad_address, d, k)
          else if not pseudo
          then (error, d, k1)
          else (ok, d, k2)))
palette-Kept false pseudo d s k k1 k2 h l1 l2 = (refl, (s, h), (λ i. (refl, refl)))
palette-Kept true false d s k k1 k2 h l1 l2 = (refl, (s, h), (λ i. (l1 i, refl)))
palette-Kept true true d s k k1 k2 h l1 l2 = (refl, (s, h), (λ i. (l2 i, refl)))

module _ (a : Answers) where
  wait_idle-live :
      (fuel : ℕ) (d : Device) (s : Shared) (k : Kernel)
      → d.si ≡ some s
      → Kept d k (elim (wait_idle a fuel k) [ none ↦ none | some k' ↦ some (ok, d, k') ])
  unfolding wait_idle
  wait_idle-live zero d s k h = tt
  wait_idle-live (suc fuel) d s k h = elim (Bool-cases (a.register k 22 == 0)) [
    | inl idle ↦ rw (wait_idle, idle) (refl, (s, h), (λ i. (refl, refl)))
    | inr busy ↦ rw (wait_idle, busy) (wait_idle-live fuel d s (record k { reads = k.reads + 1 }) h)
  ]

  -- A request that ends leaves the areas as they were, and the device owns the same ones and is open as
  -- often as before.
  pub control_hook-Kept :
      (fuel : ℕ) (d : Device) (s : Shared) (request : Ioctl) (k : Kernel)
      → d.si ≡ some s
      → Kept d k (control_hook a fuel d s request k)
  unfolding control_hook update_cursor
  control_hook-Kept fuel d s get_accelerant_signature k h = (refl, (s, h), (λ i. (refl, refl)))
  control_hook-Kept fuel d s get_private_data k h = (refl, (s, h), (λ i. (refl, refl)))
  control_hook-Kept fuel d s get_device_name k h = (refl, (s, h), (λ i. (refl, refl)))
  control_hook-Kept fuel d s fifo_start k h = (refl, (s, h), (λ i. (refl, refl)))
  control_hook-Kept fuel d s fifo_stop k h = (refl, (s, h), (λ i. (refl, refl)))
  control_hook-Kept fuel d s fifo_sync k h = wait_idle-live fuel d s (write_reg 21 1 k) h
  control_hook-Kept fuel d s (set_mode w x y) k h = elim (Bool-cases (a.reachable k)) [
    | inl near ↦ rw near (refl, (_, refl), (λ i. (refl, rw h refl)))
    | inr far ↦ rw far (refl, (s, h), (λ i. (refl, refl)))
  ]
  control_hook-Kept fuel d s (set_palette colors) k h =
      palette-Kept (a.reachable k) (a.register k 8 == 1) d s k (record k { reads = k.reads + 1 })
        (write_palette 256 0 colors (record k { reads = k.reads + 1 })) h (λ i. refl)
        (write_palette-live 256 0 colors (record k { reads = k.reads + 1 }))
  control_hook-Kept fuel d s (move_cursor x y) k h = elim (Bool-cases (a.reachable k)) [
    | inl near ↦ rw near (refl, (_, refl), (λ i. (refl, rw h refl)))
    | inr far ↦ rw far (refl, (s, h), (λ i. (refl, refl)))
  ]
  control_hook-Kept fuel d s (show_cursor show) k h = elim (Bool-cases (a.reachable k)) [
    | inl near ↦ rw near (refl, (_, refl), (λ i. (refl, rw h refl)))
    | inr far ↦ rw far (refl, (s, h), (λ i. (refl, refl)))
  ]
  control_hook-Kept fuel d s another_request k h = (refl, (s, h), (λ i. (refl, refl)))
