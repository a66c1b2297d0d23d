-- ===== src/Video/Cursor/Masks.antt =====
-- The masks of SET_CURSOR_SHAPE of vmware_video/accelerant/Cursor.c: which memory is read and written, and how
-- many words there are.
use vmware_addons.Base.{
  ℕ, zero, suc, ◌+◌, ◌-◌, ◌*◌, ◌/◌, ◌%◌, ◌^◌, ◌<◌, ◌≤◌, ◌≡◌, inl, inr, refl, ◌∙◌, Bool-cases, some,
  Bytes, List, [], ◌∷◌, ◌++◌, ◌==◌, bit_and, bit_xor, length, length-append, length-drop,
  length-set, length-take, length-write_at, get_elem?, set, take, drop, read_at, write_at, arith,
}
use vmware_addons.Video.Cursor.{
  flip, flip_pixels, line_words, write_and_mask, write_scanline, write_xor_mask,
}

read_at-row :
    (buf : Bytes) (off n : ℕ)
    → off + n ≤ length buf
    → (row : Bytes) × (read_at buf off n ≡ some row) × (length row ≡ n)
unfolding read_at
read_at-row buf off n in_ = (
  take n (drop off buf),
  ground arith,
  ground (arith, length-take n (drop off buf), length-drop off buf),
)

write_at-fits :
    (line row : Bytes)
    → length row ≤ length line
    → write_at line 0 row ≡ some (take 0 line ++ (row ++ drop (0 + length row) line))
unfolding write_at
write_at-fits line row in_ = ground arith

write_at-line :
    (line row : Bytes)
    → length row ≤ length line
    → (new : Bytes) × (write_at line 0 row ≡ some new) × (length new ≡ length line)
write_at-line line row in_ =
    let e = write_at-fits line row in_ in (_, e, length-write_at line 0 row e)

length-line_words : (n : ℕ) (line : Bytes) → length (line_words n line) ≡ n
unfolding line_words
length-line_words zero line = refl
length-line_words (suc n) line = omega (arith, length-line_words n (drop 4 line))

write_scanline-words :
    (k : ℕ) (line : Bytes)
    → 4 * k ≤ length line
    → (words : List ℕ) × (write_scanline (4 * k) line ≡ some words) × (length words ≡ k)
unfolding write_scanline
write_scanline-words k line in_ =
    let q : 4 * k / 4 ≡ k = omega arith in
    (line_words k line, rw (write_scanline, q) (ground arith), length-line_words k line)

-- A line of `4 * k` bytes after some rows, and the words of `rows` rows.
abbrev pub Rows : ℕ → ℕ → Bytes × List ℕ → Type 0
Rows k rows (line, words) = (length line ≡ 4 * k) × (length words ≡ rows * k)

-- A copied row of a mask.
copy-line :
    (k rows y bpr : ℕ) (mask line : Bytes)
    → length line ≡ 4 * k
    → bpr ≤ 4 * k
    → (y + suc rows) * bpr ≤ length mask
    → (row : Bytes) × (copied : Bytes) × (read_at mask (y * bpr) bpr ≡ some row)
      × (write_at line 0 row ≡ some copied)
      × (length copied ≡ 4 * k)
copy-line k rows y bpr mask line len narrow in_ =
    let (row, e, n) = read_at-row mask (y * bpr) bpr (grind arith) in
    let (copied, e', n') = write_at-line line row (omega arith) in (row, copied, e, e', n' ∙ len)

pub write_and_mask-Rows :
    (k rows y bpr : ℕ) (mask line : Bytes)
    → length line ≡ 4 * k
    → bpr ≤ 4 * k
    → (y + rows) * bpr ≤ length mask
    → (r : Bytes × List ℕ) × (write_and_mask rows y mask bpr (4 * k) line ≡ some r) × Rows k rows r
unfolding write_and_mask
write_and_mask-Rows k zero y bpr mask line len narrow in_ = ((line, []), refl, (len, omega arith))
write_and_mask-Rows k (suc rows) y bpr mask line len narrow in_ =
    let (row, copied, e, e', n) = copy-line k rows y bpr mask line len narrow in_ in
    let (words, e'', m) = write_scanline-words k copied (omega arith) in
    let (r, run, (n', m')) =
      write_and_mask-Rows k rows (y + 1) bpr mask copied n narrow (grind arith) in
    (
      (r.0, words ++ r.1),
      rw (write_and_mask, e, e', e'', run) refl,
      (n', omega (arith, length-append words r.1)),
    )

get_elem?-in : (xs : Bytes) (i : ℕ) → i < length xs → (a : ℕ) × (get_elem? xs i ≡ some a)
get_elem?-in [] i in_ = absurd (omega arith)
get_elem?-in (x ∷ xs) zero in_ = (x, refl)
get_elem?-in (x ∷ xs) (suc i) in_ = get_elem?-in xs i (omega arith)

-- The pixels of a row are flipped inside the line.
pub flip_pixels-length :
    (left x off : ℕ) (mask line : Bytes)
    → x + left ≤ 8 * length line
    → 8 * off + x + left ≤ 8 * length mask
    → (new : Bytes) × (flip_pixels left x mask off line ≡ some new) × (length new ≡ length line)
unfolding flip_pixels flip
flip_pixels-length zero x off mask line in_ held = (line, refl, refl)
flip_pixels-length (suc left) x off mask line in_ held =
    let (a, e) = get_elem?-in mask (off + x / 8) (omega arith) in
    let (b, e') = get_elem?-in line (x / 8) (omega arith) in
    let m : ℕ = 2 ^ (7 - x % 8) in
    let same_ = length-set line (x / 8) (bit_xor b m) in
    elim (Bool-cases (bit_and a m == 0)) [
      | inl clear ↦
          let (new, run, n) =
            flip_pixels-length left (x + 1) off mask (set line (x / 8) (bit_xor b m))
              (omega (arith, same_)) (omega arith) in
          (new, rw (flip_pixels, e, clear, e') run, n ∙ same_)
      | inr set_ ↦
          let (new, run, n) =
            flip_pixels-length left (x + 1) off mask line (omega arith) (omega arith) in
          (new, rw (flip_pixels, e, set_) run, n)
    ]

pub write_xor_mask-Rows :
    (k rows y width bpr : ℕ) (and_mask xor_mask line : Bytes)
    → length line ≡ 4 * k
    → bpr ≤ 4 * k
    → width ≤ 8 * bpr
    → (y + rows) * bpr ≤ length and_mask
    → (y + rows) * bpr ≤ length xor_mask
    → (r : Bytes × List ℕ) × (write_xor_mask rows y width and_mask xor_mask bpr (4 * k) line
        ≡ some r)
      × Rows k rows r
unfolding write_xor_mask
write_xor_mask-Rows k zero y width bpr and_mask xor_mask line len narrow wide held in_ =
    ((line, []), refl, (len, omega arith))
write_xor_mask-Rows k (suc rows) y width bpr and_mask xor_mask line len narrow wide held in_ =
    let (row, copied, e, e', n) = copy-line k rows y bpr xor_mask line len narrow in_ in
    let inside : y * bpr + bpr ≤ length and_mask = grind arith in
    let (drawn, flips, n'') =
      flip_pixels-length width 0 (y * bpr) and_mask copied (omega arith) (omega arith) in
    let (words, e'', m) = write_scanline-words k drawn (omega arith) in
    let (r, run, (n', m')) =
      write_xor_mask-Rows k rows (y + 1) width bpr and_mask xor_mask drawn (n'' ∙ n) narrow wide
        (grind arith) (grind arith) in
    (
      (r.0, words ++ r.1),
      rw (write_xor_mask, e, e', flips, e'', run) refl,
      (n', omega (arith, length-append words r.1)),
    )
