-- ===== src/Sharing/Clipboard/Words.antt =====
-- Text in words: what four bytes of a C string are sent as.
use vmware_addons.Base.{
  ℕ, zero, suc, ◌+◌, ◌*◌, ◌/◌, ◌%◌, ◌≤◌, ◌<◌, ◌≡◌, refl, sym, ap, some, Bytes, length, take, drop,
  [], ◌∷◌, ◌++◌, le_bytes, of_le_bytes, length_zero, arith,
}
use vmware_addons.Sharing.Clipboard.{strlen}

-- Characters of a C string: bytes that are not 0.
abbrev pub IsText : Bytes → Type 0
IsText [] = Unit {0}
IsText (b ∷ bs) = (0 < b) × (b < 256) × IsText bs

pub strlen-text :
    (text rest : Bytes) → IsText text → strlen (text ++ (0 ∷ rest)) ≡ some (length text)
unfolding strlen
strlen-text [] rest h = refl
strlen-text (b ∷ text) rest (low, high, h) = ground (arith, strlen-text text rest h)

pub IsText-drop : (n : ℕ) (text : Bytes) → IsText text → IsText (drop n text)
IsText-drop zero text h = h
IsText-drop (suc n) [] h = h
IsText-drop (suc n) (b ∷ text) (low, high, h) = IsText-drop n text h

pub IsText-take : (n : ℕ) (text : Bytes) → IsText text → IsText (take n text)
IsText-take zero text h = tt
IsText-take (suc n) [] h = h
IsText-take (suc n) (b ∷ text) (low, high, h) = (low, high, IsText-take n text h)

-- The low bytes of the word that a piece is sent in, whatever follows it there, are the piece.
pub take-le_bytes :
    (bs others : Bytes) (k : ℕ)
    → IsText bs
    → take (length bs) (le_bytes (length bs + k) (of_le_bytes (bs ++ others))) ≡ bs
take-le_bytes [] others k h = refl
take-le_bytes (b ∷ bs) others k (low, high, h) =
    let ih = take-le_bytes bs others k h in
    let first : (b % 256 + 256 * of_le_bytes (bs ++ others)) % 256 ≡ b = omega arith in
    let later : (b % 256 + 256 * of_le_bytes (bs ++ others)) / 256 ≡ of_le_bytes (bs ++ others) =
      omega arith in
    let size : suc (length bs) + k ≡ suc (length bs + k) = omega arith in
    rw (size, first, later, ih) refl

pub take-all : (n : ℕ) (bs : Bytes) → length bs ≤ n → take n bs ≡ bs
take-all zero bs le = sym (length_zero bs (omega arith))
take-all (suc n) [] le = refl
take-all (suc n) (b ∷ bs) le = ap (λ t. b ∷ t) (take-all n bs (omega arith))
