-- ===== src/Video/Cursor/Pixels.antt =====
-- The pixels of the second mask of vmware_video/accelerant/Cursor.c: WriteXorMask flips them where the first mask
-- has a 0, although the comment there speaks of a 1.
use vmware_addons.Base.{
  ℕ, zero, suc, ◌+◌, ◌-◌, ◌*◌, ◌/◌, ◌%◌, ◌^◌, ◌<◌, ◌≤◌, ◌≡◌, inl, inr, refl, sym, ap, ◌∙◌, Bool,
  true, false, Bool-cases, some, Bytes, ◌==◌, ◌&&◌, ltb, leb, cond, bit_and, bit_xor, length,
  length-set, elem-get_or, get_or, get_or-set, set, arith,
}
use vmware_addons.Video.Cursor.{flip, flip_pixels}
use vmware_addons.Video.Cursor.Bits.{bit, bit_of_flip, test_of_bit}

-- Pixel `x` of a line, the highest bit of a byte first.
abbrev pub pixel : Bytes → ℕ → ℕ
pixel line x = bit (get_or line (x / 8) 0) (7 - x % 8)

abbrev pub AreBytes : Bytes → Type 0
AreBytes line = (i : ℕ) → get_or line i 0 < 256

-- One flip changes one pixel.
flip-pixel :
    (line : Bytes) (x i : ℕ)
    → AreBytes line
    → x < 8 * length line
    → pixel (set line (x / 8) (bit_xor (get_or line (x / 8) 0) (2 ^ (7 - x % 8)))) i
      ≡ cond (i == x) (1 - pixel line i) (pixel line i)
flip-pixel line x i bytes in_ =
    let v : ℕ = bit_xor (get_or line (x / 8) 0) (2 ^ (7 - x % 8)) in
    let s = get_or-set line (x / 8) v (i / 8) (omega arith) in
    elim (Bool-cases (i / 8 == x / 8)) [
      | inr apart ↦ let ne : (i == x) ≡ false = ground arith in rw (s, apart, ne) refl
      | inl same_ ↦
          let at : i / 8 ≡ x / 8 = ground arith in
          let b =
            bit_of_flip (get_or line (x / 8) 0) (7 - x % 8) (7 - i % 8) (bytes (x / 8))
              (omega arith) (omega arith) in
          let tell : (7 - i % 8 == 7 - x % 8) ≡ (i == x) = ground arith in
          rw (s, same_) (b ∙ rw (at, tell) refl)
    ]

-- Whether pixel `i` is one of the pixels from `x` to `stop` at which the first mask has a 0.
abbrev pub is_flipped : Bytes → ℕ → ℕ → ℕ → ℕ → Bool
is_flipped mask off x stop i =
    leb x i && ltb i stop && (bit (get_or mask (off + i / 8) 0) (7 - i % 8) == 0)

-- Whether the first mask has a 0 at pixel `x`, which is flipped then.
after_flip :
    (x stop i m p : ℕ)
    → x < stop
    → ((i ≡ x) → (m == 0) ≡ true)
    → cond
        (leb (x + 1) i && ltb i stop && (m == 0))
        (1 - cond (i == x) (1 - p) p)
        (cond (i == x) (1 - p) p)
      ≡ cond (leb x i && ltb i stop && (m == 0)) (1 - p) p
after_flip x stop i m p in_ here_ = elim (Bool-cases (i == x)) [
  | inl at ↦ rw (at, here_ (ground arith)) (ground arith)
  | inr apart ↦ rw apart (ground arith)
]

after_keep :
    (x stop i m p : ℕ)
    → ((i ≡ x) → (m == 0) ≡ false)
    → cond (leb (x + 1) i && ltb i stop && (m == 0)) (1 - p) p
      ≡ cond (leb x i && ltb i stop && (m == 0)) (1 - p) p
after_keep x stop i m p here_ = elim (Bool-cases (i == x)) [
  | inl at ↦ rw (here_ (ground arith)) (ground arith)
  | inr apart ↦ ground arith
]

set-AreBytes :
    (line : Bytes) (i v : ℕ) → AreBytes line → i < length line → v < 256 → AreBytes (set line i v)
set-AreBytes line i v bytes in_ small j = ground (arith, get_or-set line i v j in_, bytes j)

-- For bytes, and inside the line and the mask, the loop over the pixels of a row ends and flips just those at
-- which the first mask has a 0; it leaves the others, also those behind the row.
pub flip_pixels-pixel :
    (left x off : ℕ) (mask line : Bytes)
    → AreBytes mask
    → AreBytes line
    → x + left ≤ 8 * length line
    → 8 * off + x + left ≤ 8 * length mask
    → (new : Bytes) × (flip_pixels left x mask off line ≡ some new)
      × ((i : ℕ)
          → pixel new i
            ≡ cond (is_flipped mask off x (x + left) i) (1 - pixel line i) (pixel line i))
unfolding flip_pixels flip
flip_pixels-pixel zero x off mask line held bytes in_ in' = (line, refl, λ i. ground arith)
flip_pixels-pixel (suc left) x off mask line held bytes in_ in' =
    let masked : ℕ → ℕ = λ z. bit (get_or mask (off + z / 8) 0) (7 - z % 8) in
    let k : ℕ = 7 - x % 8 in
    let a : ℕ = get_or mask (off + x / 8) 0 in
    let b : ℕ = get_or line (x / 8) 0 in
    let e = elem-get_or mask (off + x / 8) (omega arith) in
    let e' = elem-get_or line (x / 8) (omega arith) in
    let test = (test_of_bit a k (held _) (omega arith)).0 in
    let byte = (test_of_bit b k (bytes _) (omega arith)).1 in
    let sum : x + 1 + left ≡ x + suc left = omega arith in
    elim (Bool-cases (bit_and a (2 ^ k) == 0)) [
      | inl clear ↦
          let line' : Bytes = set line (x / 8) (bit_xor b (2 ^ k)) in
          let len = length-set line (x / 8) (bit_xor b (2 ^ k)) in
          let (new, run, ih) =
            flip_pixels-pixel left (x + 1) off mask line' held
              (set-AreBytes line (x / 8) (bit_xor b (2 ^ k)) bytes (omega arith) byte)
              (omega (arith, len)) (omega arith) in
          (
            new,
            rw (flip_pixels, e, clear, e') run,
            λ i.
                (let one = flip-pixel line x i bytes (omega arith) in
                  rw (sum, one) at (ih i)
                  ∙ after_flip x (x + suc left) i (masked i) (pixel line i) (omega arith)
                      (λ at. ap (λ z. masked z == 0) at ∙ (sym test ∙ clear))),
          )
      | inr set_ ↦
          let (new, run, ih) =
            flip_pixels-pixel left (x + 1) off mask line held bytes (omega arith) (omega arith) in
          (
            new,
            rw (flip_pixels, e, set_) run,
            λ i.
                (rw sum at (ih i)
                  ∙ after_keep x (x + suc left) i (masked i) (pixel line i)
                      (λ at. ap (λ z. masked z == 0) at ∙ (sym test ∙ set_))),
          )
    ]
