-- ===== src/Sharing/Clipboard/Safety.antt =====
-- GetHostClipboard of shared_sources/VMWBackdoor.cpp with any host: it stays inside its block of memory.
use vmware_addons.Base.{
  ℕ, zero, suc, ◌+◌, ◌-◌, ◌%◌, ◌^◌, ◌<◌, ◌≤◌, ◌≡◌, inl, inr, refl, Bool, true, false, not, ◌||◌,
  Bool-cases, Option-cases, Option, none, some, Bytes, ◌==◌, leb, ltb, cond, [], ◌∷◌, length, take,
  replicate, get_elem?, le_bytes, write_at, write_at-is_some, write_at-elem, length-write_at,
  length-take, length-le_bytes, length-replicate, arith,
}
use vmware_addons.Machine.{
  Env, M, Trace, Status, is_ok, ok, no_memory, pure, malloc, checked, log, allocated, alloc_failed,
  port_in, if◌then◌else◌, ◌>>=◌,
}
use vmware_addons.Machine.Laws.{Returns, Returns-bind, live}
use vmware_addons.Backdoor.{CoreBackdoor, backdoor_call}
use vmware_addons.Sharing.Clipboard.{
  Clip, chunk_of, fetch, get_clip_data, get_clip_length, get_host_clipboard, max_clip_length,
  strlen,
}
use vmware_addons.Sharing.Clipboard.Receive.{ask_for, fetch-last, fetch-more, piece}

strlen-found :
    (bs : Bytes) (i : ℕ) → get_elem? bs i ≡ some 0 → (n : ℕ) × (strlen bs ≡ some n) × (n ≤ i)
unfolding strlen
strlen-found [] i h = absurd cc
strlen-found (b ∷ bs) zero h = let e : b ≡ 0 = cc in (0, rw e refl, omega arith)
strlen-found (b ∷ bs) (suc i) h =
    let (n, e, le) = strlen-found bs i h in
    elim (Bool-cases (b == 0)) [
      | inl end ↦ (0, rw (strlen, end) refl, omega arith)
      | inr more ↦ (suc n, rw (strlen, more, e) refl, omega arith)
    ]

-- A write inside the memory succeeds.
written :
    (buf : Bytes) (off : ℕ) (bs : Bytes)
    → off + length bs ≤ length buf
    → (buf' : Bytes) × (write_at buf off bs ≡ some buf') × (length buf' ≡ length buf)
written buf off bs fits = elim (Option-cases (write_at buf off bs)) [
  | inl failed ↦
      absurd (let p = write_at-is_some buf off bs in let q = rw failed at p in ground (arith, q))
  | inr (buf', e) ↦ (buf', e, length-write_at buf off bs e)
]

length-piece : (left x : ℕ) → length (take (chunk_of left) (le_bytes 8 x)) ≡ chunk_of left
length-piece left x = grind (arith, length-take (chunk_of left) (le_bytes 8 x), length-le_bytes 8 x)

-- What the loop leaves: a block of the same size with a 0 at the end, and the same blocks of memory.
abbrev Ended : ℕ → ℕ → Option Bytes → Trace → Type 0
Ended total blocks none t = ⊥
Ended total blocks (some buf) t =
    (length buf ≡ total + 1) × (get_elem? buf total ≡ some 0) × (live t ≡ blocks)

module _ (e : Env) where
  fetch-Ended :
      (fuel : ℕ) (buffer : Bytes) (total left : ℕ) (t : Trace)
      → length buffer ≡ total + 1
      → left ≤ total
      → 0 < left
      → left ≤ fuel
      → Returns (Ended total (live t)) (fetch e fuel buffer total left t)
  fetch-Ended zero buffer total left t size le some_ fits = absurd (omega arith)
  fetch-Ended (suc fuel) buffer total left t size le some_ fits =
      let len : length (piece e fuel buffer total left t) ≡ chunk_of left =
        length-piece left ((e.port_in_answer t (ask_for get_clip_data)).eax) in
      let (filled, w, size') =
        written buffer (total - left) (piece e fuel buffer total left t) (ground (arith, len)) in
      let (ended, z, size'') = written filled total (0 ∷ []) (omega arith) in
      elim (Bool-cases (leb left 4)) [
        | inl last ↦
            rw (fetch-last e fuel buffer total left t w last z)
              (omega arith, rw z at (write_at-elem filled total 0), refl)
        | inr more ↦ rw (fetch-more e fuel buffer total left t w more) (
            fetch-Ended fuel filled total (left - 4) (port_in (ask_for get_clip_data) ∷ t)
              (omega arith) (omega arith) (ground arith) (omega arith))
      ]

-- A refusal, or a block of memory that the caller has to free, with a C string inside it.
abbrev pub Answered : ℕ → Status × Option Clip → Trace → Type 0
Answered blocks (s, none) t = (is_ok s ≡ false) × (live t ≡ blocks)
Answered blocks (s, some c) t =
    (s ≡ ok)
    × (strlen c.text ≡ some c.size)
    × (c.size < length c.text)
    × (length c.text ≤ max_clip_length + 1)
    × (live t ≡ suc blocks)

malloc-live :
    (e : Env) (n : ℕ) (t : Trace)
    → Returns (λ got u. live u ≡ cond got (suc (live t)) (live t)) (malloc e n t)
malloc-live e n t = go (e.malloc_answer t n)
  where
    go :
        (got : Bool)
        → Returns
            (λ g u. live u ≡ cond g (suc (live t)) (live t))
            ((if◌then◌else◌ got (log (allocated n) true) (log (alloc_failed n) false)) t)
    go true = refl
    go false = refl

module _ (e : Env) (total blocks : ℕ) where
  -- GetHostClipboard behind its `malloc`.
  abbrev filled_by : M (Status × Option Clip)
  filled_by = do
    buffer ← fetch e total (replicate (total + 1) 0) total total
    filled ← checked buffer
    found ← checked (strlen filled)
    pure (ok, some (record { text = filled; size = found }))

  strlen-Answered :
      (o : Option Bytes) (u : Trace)
      → total ≤ max_clip_length
      → Ended total (suc blocks) o u
      → Returns (Answered blocks) (
          (do
            filled ← checked o
            found ← checked (strlen filled)
            pure (ok, some (record { text = filled; size = found })))
            u)
  strlen-Answered none u fits h = h
  strlen-Answered (some buf) u fits (size, end, mem) =
      let (n, e', le) = strlen-found buf total end in
      rw e' (refl, e', omega arith, omega arith, mem)

  filled_by-Answered :
      (u : Trace)
      → 0 < total
      → total ≤ max_clip_length
      → live u ≡ suc blocks
      → Returns (Answered blocks) (filled_by u)
  filled_by-Answered u some_ fits mem =
      Returns-bind (Ended total (suc blocks)) (Answered blocks)
        (fetch e total (replicate (total + 1) 0) total total) _ u
        (rw mem at (
          fetch-Ended e total (replicate (total + 1) 0) total total u
            (length-replicate {A = ℕ} (total + 1) 0) (omega arith) some_ (omega arith)))
        (λ o u' h. strlen-Answered o u' fits h)

-- Whatever the host answers, GetHostClipboard ends, within its fuel, without an access outside its block:
-- it refuses, and no memory is kept; or it gives one block of at most 65437 bytes with a C string of the
-- length that it stores.
pub get_host_clipboard-Answered :
    (e : Env) (b : CoreBackdoor) (wanted : Bool) (t : Trace)
    → Returns (Answered (live t)) (get_host_clipboard e b wanted t)
unfolding get_host_clipboard backdoor_call
get_host_clipboard-Answered e b wanted t = elim (Bool-cases b.in_vmware) [
  | inr out ↦ rw out (refl, refl)
  | inl inside ↦ elim (Bool-cases wanted) [
    | inr unwanted ↦ rw (inside, unwanted) (refl, refl)
    | inl asked ↦ elim (Bool-cases (n == 0 || ltb max_clip_length n)) [
      | inl bad ↦ rw (inside, asked, bad) (refl, refl)
      | inr good ↦
          rw (inside, asked, good)
            (Returns-bind (λ got u. live u ≡ cond got (suc (live t)) (live t)) (Answered (live t))
              (malloc e (n + 1)) _ (port_in (ask_for get_clip_length) ∷ t)
              (malloc-live e (n + 1) (port_in (ask_for get_clip_length) ∷ t))
              (λ got u h. go got u h (ground arith) (ground arith)))
    ]
  ]
]
  where
    n : ℕ
    n = (e.port_in_answer t (ask_for get_clip_length)).eax % 2 ^ 32

    go :
        (got : Bool) (u : Trace)
        → live u ≡ cond got (suc (live t)) (live t)
        → 0 < n
        → n ≤ max_clip_length
        → Returns
            (Answered (live t))
            ((if not got then pure (no_memory, none) else filled_by e n (live t)) u)
    go true u h some_ fits = filled_by-Answered e n (live t) u some_ fits h
    go false u h some_ fits = (refl, h)
