-- ===== src/Video/Cursor/Bits.antt =====
-- The bits of a byte: what the operators `&` and `^` of vmware_video/accelerant/Cursor.c do with `1 << k`, by a
-- table of all bytes.
use vmware_addons.Base.{
  ℕ, zero, suc, ◌-◌, ◌/◌, ◌%◌, ◌^◌, ◌<◌, ◌≡◌, refl, Bool, true, ◌==◌, ◌&&◌, ◌||◌, not, ltb, cond,
  ==_iff, bit_and, bit_xor, arith,
}

-- Bit `j` of a byte.
abbrev pub bit : ℕ → ℕ → ℕ
bit a j = a / 2 ^ j % 2

-- A test of the numbers under a bound, one by one.
holds_under : (ℕ → Bool) → ℕ → Bool
holds_under test zero = true
holds_under test (suc bound) = holds_under test bound && test bound

holds_under-elem :
    (test : ℕ → Bool) {bound i : ℕ} → i < bound → holds_under test bound ≡ true → test i ≡ true
unfolding holds_under
holds_under-elem test {bound = zero} lt h = absurd (omega arith)
holds_under-elem test {bound = suc bound} {i = i} lt h =
    ground (arith, holds_under-elem test {bound = bound} {i = i})

-- What `^ 1 << k` makes of bit `j`, and what `& 1 << k` says, of each byte.
flips : ℕ → ℕ → ℕ → Bool
flips a k j = bit (bit_xor a (2 ^ k)) j == cond (j == k) (1 - bit a j) (bit a j)

flip_table : holds_under (λ a. holds_under (λ k. holds_under (flips a k) 8) 8) 256 ≡ true
unfolding holds_under flips
flip_table = refl

-- `& 1 << k` is 0 just where bit `k` is, and `^ 1 << k` leaves a byte.
tests : ℕ → ℕ → Bool
tests a k =
    ((bit_and a (2 ^ k) == 0) && (bit a k == 0) || (not (bit_and a (2 ^ k) == 0) && (bit a k == 1)))
    && ltb (bit_xor a (2 ^ k)) 256

test_table : holds_under (λ a. holds_under (tests a) 8) 256 ≡ true
unfolding holds_under tests
test_table = refl

pub bit_of_flip :
    (a k j : ℕ)
    → a < 256
    → k < 8
    → j < 8
    → bit (bit_xor a (2 ^ k)) j ≡ cond (j == k) (1 - bit a j) (bit a j)
unfolding flips
bit_of_flip a k j small in_ in' =
    let row =
      holds_under-elem (λ a. holds_under (λ k. holds_under (flips a k) 8) 8) small flip_table in
    let cell = holds_under-elem (λ k. holds_under (flips a k) 8) in_ row in
    (==_iff _ _).0 (holds_under-elem (flips a k) in' cell)

pub test_of_bit :
    (a k : ℕ)
    → a < 256
    → k < 8
    → ((bit_and a (2 ^ k) == 0) ≡ (bit a k == 0)) × (bit_xor a (2 ^ k) < 256)
unfolding tests
test_of_bit a k small in_ =
    let row = holds_under-elem (λ a. holds_under (tests a) 8) small test_table in
    let one = holds_under-elem (tests a) in_ row in (ground arith, ground arith)
