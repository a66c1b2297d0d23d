-- ===== src/Video/Hooks/Colors.antt =====
-- SET_INDEXED_COLORS of vmware_video/accelerant/SetDisplayMode.c, through the palette of the driver.
use vmware_addons.Base.{
  ℕ, zero, suc, ◌+◌, ◌-◌, ◌%◌, ◌^◌, ◌<◌, ◌≤◌, ◌≡◌, ◌∙◌, ap, inl, inr, refl, sym, Bool, true, false,
  Bool-cases, some, Bytes, [], ◌∷◌, ◌++◌, ◌==◌, ◌&&◌, leb, ltb, cond, elem-get_or, get_or,
  get_or-append, get_or-set, length, length-set, set, arith,
}
use native.Mathlib.Decide.{dec_lt}
use vmware_addons.Machine.{Status, ok}
use vmware_addons.Video.Driver.{Answers, Device, Kernel, Shared}
use vmware_addons.Video.Driver.Control.{Ioctl, control_hook, palette_base, set_palette}
use vmware_addons.Video.Driver.Control.Palette.{last_value, set_palette-value}
use vmware_addons.Video.Modes.{Accelerant, ioctl}
use vmware_addons.Video.Hooks.{fill_colors, set_indexed_colors}

fill_step :
    (left i first j : ℕ) (color_data colors : Bytes)
    → i + first < length colors
    → cond
        (leb (i + 1 + first) j && ltb j (i + 1 + left + first))
        (get_or color_data (j - first) 0)
        (get_or (set colors (i + first) (get_or color_data i 0)) j 0)
      ≡ cond
          (leb (i + first) j && ltb j (i + suc left + first))
          (get_or color_data (j - first) 0)
          (get_or colors j 0)
fill_step left i first j color_data colors in_ =
    let s = get_or-set colors (i + first) (get_or color_data i 0) j in_ in
    elim (Bool-cases (j == i + first)) [
      | inl at ↦ let back : j - first ≡ i = ground arith in rw (s, at, back) (ground arith)
      | inr away ↦ rw (s, away) (ground arith)
    ]

-- Byte `j` of the array after the loop from colour `i` on.
fill_colors-value :
    (left i first : ℕ) (color_data colors : Bytes)
    → i + left ≤ length color_data
    → i + left + first ≤ length colors
    → (filled : Bytes) × (fill_colors left i first color_data colors ≡ some filled)
      × (length filled ≡ length colors)
      × ((j : ℕ)
          → get_or filled j 0
            ≡ cond
                (leb (i + first) j && ltb j (i + left + first))
                (get_or color_data (j - first) 0)
                (get_or colors j 0))
unfolding fill_colors
fill_colors-value zero i first color_data colors given room =
    (colors, refl, refl, λ j. ground arith)
fill_colors-value (suc left) i first color_data colors given room =
    let e = elem-get_or color_data i (omega arith) in
    let color : ℕ = get_or color_data i 0 in
    let in_ : ltb (i + first) (length colors) ≡ true = ground arith in
    let len = length-set colors (i + first) color in
    let (filled, run, len', value) =
      fill_colors-value left (i + 1) first color_data (set colors (i + first) color) (omega arith)
        (omega (arith, len)) in
    (
      filled,
      rw (fill_colors, e, in_) run,
      len' ∙ len,
      λ j. value j ∙ fill_step left i first j color_data colors (omega arith),
    )

get_or-append_behind :
    (xs zs ys : Bytes) (j : ℕ)
    → length xs ≡ length zs
    → length xs ≤ j
    → get_or (xs ++ ys) j 0 ≡ get_or (zs ++ ys) j 0
get_or-append_behind [] [] ys j e h = refl
get_or-append_behind [] (z ∷ zs) ys j e h = absurd (omega arith)
get_or-append_behind (x ∷ xs) [] ys j e h = absurd (omega arith)
get_or-append_behind (x ∷ xs) (z ∷ zs) ys zero e h = absurd (omega arith)
get_or-append_behind (x ∷ xs) (z ∷ zs) ys (suc j) e h =
    get_or-append_behind xs zs ys j (omega arith) (omega arith)

-- What stands behind an array does not change with it.
with_behind :
    (filled stale behind : Bytes) (j v : ℕ) (inside : Bool)
    → length filled ≡ length stale
    → (inside ≡ true → j < length stale)
    → get_or filled j 0 ≡ cond inside v (get_or stale j 0)
    → get_or (filled ++ behind) j 0 ≡ cond inside v (get_or (stale ++ behind) j 0)
with_behind filled stale behind j v inside len within e = elim (dec_lt j (length stale)) [
  | yes in_ ↦
      get_or-append filled behind j (omega arith)
      ∙ e
      ∙ ap (cond inside v) (sym (get_or-append stale behind j in_))
  | no out ↦
      let far : inside ≡ false = ground arith in
      rw far (get_or-append_behind filled stale behind j len (omega arith))
]

ioctl-done :
    (a : Answers) (sync : (ℕ → ℕ) → ℕ → ℕ) (request : Ioctl) (acc : Accelerant) (s : Shared)
    (st : Status) (d : Device) (k : Kernel)
    → acc.device.si ≡ some s
    → control_hook a 0 acc.device s request acc.kernel ≡ some (st, d, k)
    → ioctl a sync request acc ≡ record acc { device = d; kernel = k }
unfolding ioctl
ioctl-done a sync request acc s st d k has_si done_ = cc

module _ (a : Answers) (sync : (ℕ → ℕ) → ℕ → ℕ) where
  -- Where the data has `count` bytes and they fit in the array behind `first`, SET_INDEXED_COLORS stays inside both.
  -- If the driver can copy the request and the device has a palette, the registers from `first` on hold the
  -- `count` bytes of the data, one each, and the other 768 - count are set too, to what stood in the array and
  -- behind it.
  pub set_indexed_colors-value :
      (count first : ℕ) (color_data stale behind : Bytes) (acc : Accelerant) (s : Shared) (j : ℕ)
      → count ≤ length color_data
      → count + first ≤ 256
      → length stale ≡ 256
      → acc.device.si ≡ some s
      → a.reachable acc.kernel ≡ true
      → a.register acc.kernel 8 ≡ 1
      → j < 768
      → (acc' : Accelerant) × (set_indexed_colors a sync count first color_data stale behind acc
          ≡ some acc')
        × (last_value acc'.kernel.written (palette_base + j) 0
            ≡ cond
                (leb first j && ltb j (count + first))
                (get_or color_data (j - first) 0)
                (get_or (stale ++ behind) j 0)
              % 2 ^ 32)
  unfolding set_indexed_colors
  set_indexed_colors-value count first color_data stale behind acc s j given room whole has_si near
        one lt =
      let (filled, run, len, value) =
        fill_colors-value count 0 first color_data stale (omega arith) (omega arith) in
      let (k', done_, word) =
        set_palette-value a 0 acc.device s (filled ++ behind) acc.kernel j near one lt in
      (
        record acc { device = acc.device; kernel = k' },
        rw (set_indexed_colors, run)
            (ap some (
              ioctl-done a sync (set_palette (filled ++ behind)) acc s ok acc.device k' has_si
                done_)),
        word ∙ ap (λ z. z % 2 ^ 32) (bytes filled len (value j)),
      )
    where
      bytes :
          (filled : Bytes)
          → length filled ≡ length stale
          → get_or filled j 0
            ≡ cond
                (leb (0 + first) j && ltb j (0 + count + first))
                (get_or color_data (j - first) 0)
                (get_or stale j 0)
          → get_or (filled ++ behind) j 0
            ≡ cond
                (leb first j && ltb j (count + first))
                (get_or color_data (j - first) 0)
                (get_or (stale ++ behind) j 0)
      bytes filled len e =
          let from : 0 + first ≡ first = omega arith in
          let to : 0 + count + first ≡ count + first = omega arith in
          with_behind filled stale behind j (get_or color_data (j - first) 0)
            (leb first j && ltb j (count + first)) len (λ h. ground arith) (rw (from, to) at e)
