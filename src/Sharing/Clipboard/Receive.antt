-- ===== src/Sharing/Clipboard/Receive.antt =====
-- GetHostClipboard of shared_sources/VMWBackdoor.cpp with a host that gives its clipboard out in words:
-- what arrives.
use vmware_addons.Base.{
  ℕ, zero, suc, ◌+◌, ◌-◌, ◌*◌, ◌%◌, ◌^◌, ◌≤◌, ◌<◌, ◌≡◌, ◌⊎◌, inl, inr, refl, sym, ◌∙◌, Bool, true,
  false, Bool-cases, not, Option, none, some, Bytes, ◌==◌, leb, ltb, cond, ◌||◌, length, take, drop,
  replicate, [], ◌∷◌, ◌++◌, le_bytes, of_le_bytes, write_at, write_at-append, append_assoc,
  append-nil, length-append, length-take, length-drop, length_zero, length-replicate,
  take-append-drop, drop-append_length, arith,
}
use vmware_addons.Machine.{
  Cpu, Env, M, Trace, Status, ok, no_memory, pure, done, port_in, allocated, alloc_failed, malloc,
  log, checked, if◌then◌else◌, ◌>>=◌,
}
use vmware_addons.Machine.Laws.{Returns, Returns-bind}
use vmware_addons.Backdoor.{CoreBackdoor, back_magic, back_port, backdoor_call}
use vmware_addons.Sharing.Clipboard.{
  Clip, chunk_of, fetch, get_clip_data, get_clip_length, get_host_clipboard, max_clip_length,
  strlen,
}
use vmware_addons.Sharing.Clipboard.Words.{
  IsText, IsText-drop, IsText-take, strlen-text, take-all, take-le_bytes,
}

-- How many words of the clipboard have been given out since its length was last asked for.
abbrev pub fetched : Trace → ℕ
fetched [] = 0
fetched (port_in c ∷ t) =
    cond (c.ecx == get_clip_data) (suc (fetched t)) (cond (c.ecx == get_clip_length) 0 (fetched t))
fetched (_ ∷ t) = fetched t

-- The host has the text in its clipboard, and gives its length and then its bytes, four at a time.
abbrev pub Serves : Env → Bytes → Type 0
Serves e text =
    ((t : Trace) (c : Cpu) → c.ecx ≡ get_clip_length → (e.port_in_answer t c).eax ≡ length text)
    × ((t : Trace) (c : Cpu)
        → c.ecx ≡ get_clip_data
        → (e.port_in_answer t c).eax ≡ of_le_bytes (take 4 (drop (4 * fetched t) text)))

-- The word that a piece of at most four characters is sent in gives the piece back.
take-word :
    (left : ℕ) (todo : Bytes)
    → IsText todo
    → length todo ≡ left
    → take (chunk_of left) (le_bytes 8 (of_le_bytes (take 4 todo))) ≡ take 4 todo
take-word left todo h size =
    let len : length (take 4 todo) ≡ chunk_of left = grind (arith, length-take 4 todo) in
    let all : length (take 4 todo) + (8 - length (take 4 todo)) ≡ 8 =
      grind (arith, length-take 4 todo) in
    let p = take-le_bytes (take 4 todo) [] (8 - length (take 4 todo)) (IsText-take 4 todo h) in
    rw (append-nil (take 4 todo), all, len) at p

-- The registers of a call.
abbrev pub ask_for : ℕ → Cpu
ask_for command = record {
  eax = back_magic;
  ebx = 0;
  ecx = command;
  edx = back_port;
  esi = 0;
  edi = 0;
  ebp = 0;
}

module _ (e : Env) (fuel : ℕ) (buffer : Bytes) (total left : ℕ) (t : Trace) where
  -- The bytes that one round stores.
  abbrev pub piece : Bytes
  piece = take (chunk_of left) (le_bytes 8 (e.port_in_answer t (ask_for get_clip_data)).eax)

  -- One round of the loop, whose bytes are stored.
  pub fetch-more :
      {filled : Bytes}
      → write_at buffer (total - left) piece ≡ some filled
      → leb left 4 ≡ false
      → fetch e (suc fuel) buffer total left t
        ≡ fetch e fuel filled total (left - 4) (port_in (ask_for get_clip_data) ∷ t)
  unfolding fetch backdoor_call
  fetch-more h more = rw (h, more) refl

  pub fetch-last :
      {filled ended : Bytes}
      → write_at buffer (total - left) piece ≡ some filled
      → leb left 4 ≡ true
      → write_at filled total (0 ∷ []) ≡ some ended
      → fetch e (suc fuel) buffer total left t
        ≡ done (some ended) (port_in (ask_for get_clip_data) ∷ t)
  unfolding fetch backdoor_call
  fetch-last h last end = rw (h, last, end) refl

module _ (e : Env) (text : Bytes) (serves : Serves e text) (h : IsText text) where
  -- The bytes that a round stores are the next ones of the text.
  piece-next :
      (so_far todo : Bytes) (t : Trace)
      → so_far ++ todo ≡ text
      → length so_far ≡ 4 * fetched t
      → take (chunk_of (length todo)) (le_bytes 8 (e.port_in_answer t (ask_for get_clip_data)).eax)
        ≡ take 4 todo
  piece-next so_far todo t whole pos =
      let next : drop (4 * fetched t) text ≡ todo =
        rw (sym pos, sym whole, drop-append_length so_far todo) refl in
      let good : IsText todo = rw next at (IsText-drop (4 * fetched t) text h) in
      let word = serves.1 t (ask_for get_clip_data) refl in
      rw (word, next, take-word (length todo) todo good refl) refl

  -- The terminator behind the last piece.
  end :
      (so_far todo rest : Bytes)
      → so_far ++ todo ≡ text
      → length rest ≡ suc (length todo)
      → length todo ≤ 4
      → write_at
          ((so_far ++ take 4 todo) ++ drop (length (take 4 todo)) rest)
          (length text)
          (0 ∷ [])
        ≡ some (text ++ (0 ∷ []))
  end so_far todo rest whole room last =
      let none_left : drop 1 (drop (length todo) rest) ≡ [] =
        length_zero (drop 1 (drop (length todo) rest)) (
          grind (arith, length-drop 1 (drop (length todo) rest), length-drop (length todo) rest)) in
      rw (take-all 4 todo last, whole)
        (rw
          (write_at-append text (0 ∷ []) (drop (length todo) rest)
            (grind (arith, length-drop (length todo) rest)))
          (rw (none_left, append-nil (text ++ (0 ∷ []))) refl))

  fetch-text :
      (fuel : ℕ) (so_far todo rest : Bytes) (t : Trace)
      → so_far ++ todo ≡ text
      → length so_far ≡ 4 * fetched t
      → length rest ≡ suc (length todo)
      → 0 < length todo
      → length todo ≤ fuel
      → Returns
          (λ o t'. o ≡ some (text ++ (0 ∷ [])))
          (fetch e fuel (so_far ++ rest) (length text) (length todo) t)
  fetch-text zero so_far todo rest t whole pos room some_left fits = absurd (omega arith)
  fetch-text (suc fuel) so_far todo rest t whole pos room some_left fits =
      let sizes : length so_far + length todo ≡ length text =
        rw (sym (length-append so_far todo), whole) refl in
      let at : length text - length todo ≡ length so_far = omega arith in
      let filled : write_at (so_far ++ rest) (length text - length todo)
            (piece e fuel (so_far ++ rest) (length text) (length todo) t)
          ≡ some ((so_far ++ take 4 todo) ++ drop (length (take 4 todo)) rest) =
        rw (at, piece-next so_far todo t whole pos)
          (write_at-append so_far (take 4 todo) rest (grind (arith, length-take 4 todo))) in
      elim (Bool-cases (leb (length todo) 4)) [
        | inl last ↦
            rw
              (fetch-last e fuel (so_far ++ rest) (length text) (length todo) t filled last
                (end so_far todo rest whole room (ground arith)))
              refl
        | inr more ↦
            let over : 4 < length todo = ground arith in
            let four : length (take 4 todo) ≡ 4 = grind (arith, length-take 4 todo) in
            let whole' : (so_far ++ take 4 todo) ++ drop 4 todo ≡ text =
              rw (append_assoc so_far (take 4 todo) (drop 4 todo), take-append-drop 4 todo) whole in
            let next =
              fetch-text fuel (so_far ++ take 4 todo) (drop 4 todo)
                (drop (length (take 4 todo)) rest) (port_in (ask_for get_clip_data) ∷ t) whole'
                (omega (arith, length-append so_far (take 4 todo)))
                (omega (arith, length-drop 4 todo, length-drop (length (take 4 todo)) rest))
                (grind (arith, length-drop 4 todo)) (omega (arith, length-drop 4 todo)) in
            rw (fetch-more e fuel (so_far ++ rest) (length text) (length todo) t filled more)
              (rw (length-drop 4 todo) at next)
      ]

-- Either the clipboard was stored, as the text and a terminator with the text's length, or there was no
-- memory for it.
abbrev pub Received : Bytes → Status × Option Clip → Type 0
Received text (s, c) =
    ((s ≡ ok) × (c ≡ some (record { text = text ++ (0 ∷ []); size = length text })))
    ⊎ ((s ≡ no_memory) × (c ≡ none))

malloc-fetched :
    (e : Env) (n : ℕ) (t : Trace) → fetched t ≡ 0 → Returns (λ got u. fetched u ≡ 0) (malloc e n t)
malloc-fetched e n t h = go (e.malloc_answer t n)
  where
    go :
        (got : Bool)
        → Returns
            (λ g u. fetched u ≡ 0)
            ((if◌then◌else◌ got (log (allocated n) true) (log (alloc_failed n) false)) t)
    go true = h
    go false = h

-- In VMware, and with a host that has a text of 1 to 65436 characters in its clipboard and gives its
-- length and then its words in order, GetHostClipboard ends, within its fuel and inside its buffer, with
-- the whole text, terminated, and its length; or there was no memory.
pub get_host_clipboard-text :
    (e : Env) (b : CoreBackdoor) (text : Bytes) (t : Trace)
    → Serves e text
    → IsText text
    → b.in_vmware ≡ true
    → 0 < length text
    → length text ≤ max_clip_length
    → Returns (λ r t'. Received text r) (get_host_clipboard e b true t)
unfolding get_host_clipboard backdoor_call
get_host_clipboard-text e b text t serves h inside some_text fits =
    let size : (e.port_in_answer t (ask_for get_clip_length)).eax % 2 ^ 32 ≡ length text =
      rw (serves.0 t (ask_for get_clip_length) refl) (omega arith) in
    let good : ((length text == 0) || ltb max_clip_length (length text)) ≡ false = ground arith in
    rw (inside, size, good)
      (Returns-bind (λ got u. fetched u ≡ 0) (λ r u. Received text r) (malloc e (length text + 1)) _
        (port_in (ask_for get_clip_length) ∷ t) (malloc-fetched e (length text + 1) _ refl) go)
  where
    rest : M (Status × Option Clip)
    rest = do
      buffer ← fetch e (length text) (replicate (length text + 1) 0) (length text) (length text)
      filled ← checked buffer
      found ← checked (strlen filled)
      pure (ok, some (record { text = filled; size = found }))

    go :
        (got : Bool) (u : Trace)
        → fetched u ≡ 0
        → Returns (λ r u'. Received text r) ((if not got then pure (no_memory, none) else rest) u)
    go true u none_yet =
        Returns-bind (λ o u'. o ≡ some (text ++ (0 ∷ []))) (λ r u'. Received text r)
          (fetch e (length text) (replicate (length text + 1) 0) (length text) (length text)) _ u
          (fetch-text e text serves h (length text) [] text (replicate (length text + 1) 0) u refl
            (rw none_yet refl) (length-replicate {A = ℕ} (length text + 1) 0 ∙ omega arith)
            some_text (omega arith))
          (λ o u' eq. rw (eq, strlen-text text [] h) (inl (refl, refl)))
    go false u none_yet = inr (refl, refl)
