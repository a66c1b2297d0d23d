-- ===== src/Base/Memory.antt =====
-- Bytes of little-endian words, and byte buffers of a fixed size with checked reads and writes.
use Prim.Native.Nat.{ℕ, zero, suc, ◌+◌, ◌*◌, ◌/◌, ◌%◌, ◌^◌, ◌≤◌}
use mathlib.Core.Path.{◌≡◌, refl, ap, ◌∙◌}
use mathlib.Core.Logic.{◌↔◌, inl, inr}
use mathlib.Core.Bool.{Bool, true, false, ◌&&◌}
use mathlib.Core.Option.{Option, none, some}
use mathlib.Core.List.{List, [], ◌∷◌, ◌++◌, append_assoc}
use native.Mathlib.Omega.{arith}
use vmware_addons.Base.Tests.{Bool-cases, leb, ◌==◌, if◌then◌else◌}
use vmware_addons.Base.Lists.{
  length, get_elem?, take, drop, length-append, length-take, length-drop,
}

abbrev pub Bytes : Type 0
Bytes = List ℕ

-- The `n` low bytes of a number, the lowest first.
abbrev pub le_bytes : ℕ → ℕ → Bytes
le_bytes zero x = []
le_bytes (suc n) x = x % 256 ∷ le_bytes n (x / 256)

abbrev pub of_le_bytes : Bytes → ℕ
of_le_bytes [] = 0
of_le_bytes (b ∷ bs) = b % 256 + 256 * of_le_bytes bs

pub length-le_bytes : (n x : ℕ) → length (le_bytes n x) ≡ n
length-le_bytes zero x = refl
length-le_bytes (suc n) x = ap suc (length-le_bytes n (x / 256))

-- The `n` bytes that start at an offset, if they lie inside the buffer.
unfoldable pub read_at : Bytes → ℕ → ℕ → Option Bytes
read_at buf off n = if leb (off + n) (length buf) then some (take n (drop off buf)) else none

-- Overwrites the bytes at an offset, if they lie inside the buffer.
unfoldable pub write_at : Bytes → ℕ → Bytes → Option Bytes
write_at buf off bs =
    if leb (off + length bs) (length buf)
    then some (take off buf ++ (bs ++ drop (off + length bs) buf))
    else none

-- Two byte strings are the same (`strcmp(a, b) == 0`).
unfoldable pub same : Bytes → Bytes → Bool
same [] [] = true
same (a ∷ as') (b ∷ bs) = a == b && same as' bs
same _ _ = false

pub of_le_bytes-le_bytes : (x : ℕ) → of_le_bytes (le_bytes 4 x) ≡ x % 2 ^ 32
of_le_bytes-le_bytes x = omega arith

pub of_le_bytes-le_bytes_wide : (x : ℕ) → of_le_bytes (le_bytes 8 x) ≡ x % 2 ^ 64
of_le_bytes-le_bytes_wide x = omega arith

pub same_iff : (a b : Bytes) → (same a b ≡ true) ↔ (a ≡ b)
unfolding same
same_iff [] [] = ((λ _. refl), (λ _. refl))
same_iff [] (b ∷ bs) = ((λ h. cc), (λ h. cc))
same_iff (a ∷ as') [] = ((λ h. cc), (λ h. cc))
same_iff (a ∷ as') (b ∷ bs) = ground (arith, same_iff as' bs)

module _ {ℓ} {A : Type ℓ} where
  pub take-append_length : (xs ys : List A) → take (length xs) (xs ++ ys) ≡ xs
  take-append_length [] ys = refl
  take-append_length (x ∷ xs) ys = ap (λ t. x ∷ t) (take-append_length xs ys)

  pub drop-append_length : (xs ys : List A) → drop (length xs) (xs ++ ys) ≡ ys
  drop-append_length [] ys = refl
  drop-append_length (x ∷ xs) ys = drop-append_length xs ys

  pub drop-append_add : (xs ys : List A) (n : ℕ) → drop (length xs + n) (xs ++ ys) ≡ drop n ys
  drop-append_add [] ys n = ap (λ k. drop k ys) (omega arith)
  drop-append_add (x ∷ xs) ys n =
      let e : suc (length xs) + n ≡ suc (length xs + n) = omega arith in
      rw e (drop-append_add xs ys n)

  pub length_zero : (xs : List A) → length xs ≡ 0 → xs ≡ []
  length_zero [] h = refl
  length_zero (x ∷ xs) h = absurd (omega arith)

-- Writing behind a prefix keeps the prefix and the bytes behind the write.
pub write_at-append :
    (msg bs rest : Bytes)
    → length bs ≤ length rest
    → write_at (msg ++ rest) (length msg) bs ≡ some ((msg ++ bs) ++ drop (length bs) rest)
unfolding write_at
write_at-append msg bs rest h =
    rw (length-append msg rest, take-append_length msg rest, drop-append_add msg rest (length bs))
      (ground (arith, append_assoc msg bs (drop (length bs) rest)))

-- Reading a middle part gives that part.
pub read_at-append :
    (pre part rest : Bytes) → read_at (pre ++ (part ++ rest)) (length pre) (length part) ≡ some part
unfolding read_at
read_at-append pre part rest =
    rw
      (
        length-append pre (part ++ rest),
        length-append part rest,
        drop-append_length pre (part ++ rest),
        take-append_length part rest,
      )
      (ground arith)

pub length-write_at :
    (buf : Bytes) (off : ℕ) (bs : Bytes) {buf' : Bytes}
    → write_at buf off bs ≡ some buf'
    → length buf' ≡ length buf
unfolding write_at
length-write_at buf off bs e = ground (
  arith,
  length-append (take off buf) (bs ++ drop (off + length bs) buf),
  length-append bs (drop (off + length bs) buf),
  length-take off buf,
  length-drop (off + length bs) buf,
)

-- What a checked access gives, in the form that branching code is proved with.
abbrev pub is_some {ℓ} : {A : Type ℓ} → Option A → Bool
is_some none = false
is_some (some _) = true

abbrev pub length_or : ℕ → Option Bytes → ℕ
length_or d none = d
length_or d (some bs) = length bs

pub write_at-is_some :
    (buf : Bytes) (off : ℕ) (bs : Bytes)
    → is_some (write_at buf off bs) ≡ leb (off + length bs) (length buf)
unfolding write_at
write_at-is_some buf off bs = ground arith

pub write_at-length_or :
    (buf : Bytes) (off : ℕ) (bs : Bytes) → length_or (length buf) (write_at buf off bs) ≡ length buf
write_at-length_or buf off bs = go (write_at buf off bs) refl
  where
    go :
        (r : Option Bytes)
        → write_at buf off bs ≡ r
        → length_or (length buf) (write_at buf off bs) ≡ length buf
    go none h = rw h
    go (some x) h = rw h (length-write_at buf off bs h)

pub read_at-is_some :
    (buf : Bytes) (off n : ℕ) → is_some (read_at buf off n) ≡ leb (off + n) (length buf)
unfolding read_at
read_at-is_some buf off n = ground arith

module _ {ℓ} {A : Type ℓ} where
  pub get_elem?-append_length :
      (xs : List A) (y : A) (ys : List A) → get_elem? (xs ++ (y ∷ ys)) (length xs) ≡ some y
  get_elem?-append_length [] y ys = refl
  get_elem?-append_length (x ∷ xs) y ys = get_elem?-append_length xs y ys

  pub get_elem?-drop :
      (n : ℕ) (xs : List A) (i : ℕ) → get_elem? (drop n xs) i ≡ get_elem? xs (n + i)
  get_elem?-drop zero xs i = ap (get_elem? xs) {x = i} (omega arith)
  get_elem?-drop (suc n) [] i = refl
  get_elem?-drop (suc n) (x ∷ xs) i =
      get_elem?-drop n xs i ∙ ap (get_elem? (x ∷ xs)) {x = suc (n + i)} (omega arith)

abbrev pub elem_of : Option Bytes → ℕ → Option ℕ → Option ℕ
elem_of none i d = d
elem_of (some bs) i d = get_elem? bs i

-- What is written at an offset stands there.
pub write_at-elem :
    (buf : Bytes) (off x : ℕ) → elem_of (write_at buf off (x ∷ [])) off (some x) ≡ some x
unfolding write_at
write_at-elem buf off x = elim (Bool-cases (leb (off + 1) (length buf))) [
  | inl fits ↦ rw fits (
      let e : length (take off buf) ≡ off = ground (arith, length-take off buf) in
      let p = get_elem?-append_length (take off buf) x (drop (off + 1) buf) in rw e at p)
  | inr out ↦ rw out
]
