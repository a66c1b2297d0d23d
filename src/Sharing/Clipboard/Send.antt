-- ===== src/Sharing/Clipboard/Send.antt =====
-- SetHostClipboard of shared_sources/VMWBackdoor.cpp: what the host is given, read off the trace.
use vmware_addons.Base.{
  ℕ, zero, suc, ◌+◌, ◌-◌, ◌/◌, ◌%◌, ◌^◌, ◌≤◌, ◌<◌, ◌≡◌, inl, inr, refl, sym, ap, ◌∙◌, true, false,
  Bool-cases, none, some, Bytes, ◌==◌, leb, cond, length, take, drop, [], ◌∷◌, ◌++◌, le_bytes,
  of_le_bytes, read_at, write_at, write_at-append, append_assoc, length-append, length-take,
  length-drop, take-append-drop, arith, read_at-append, leb→le,
}
use vmware_addons.Machine.{Cpu, Env, Trace, ok, fault, done, port_in}
use vmware_addons.Machine.Laws.{Returns, Returns-bind}
use vmware_addons.Backdoor.{CoreBackdoor, back_magic, back_port, backdoor_call}
use vmware_addons.Sharing.Clipboard.{
  chunk_of, put_words, set_clip_data, set_clip_length, set_host_clipboard,
}
use vmware_addons.Sharing.Clipboard.Words.{
  IsText, IsText-drop, IsText-take, strlen-text, take-all, take-le_bytes,
}

-- The length that the host was last told.
abbrev pub announced : Trace → ℕ
announced [] = 0
announced (port_in c ∷ t) = cond (c.ecx == set_clip_length) c.ebx (announced t)
announced (_ ∷ t) = announced t

-- The bytes that the host was given since then, the first first.
abbrev pub received : Trace → Bytes
received [] = []
received (port_in c ∷ t) =
    cond (c.ecx == set_clip_length) []
      (cond (c.ecx == set_clip_data) (received t ++ le_bytes 4 c.ebx) (received t))
received (_ ∷ t) = received t

le_bytes-mod : (x : ℕ) → le_bytes 4 (x % 2 ^ 32) ≡ le_bytes 4 x
le_bytes-mod x =
    let a : x % 2 ^ 32 % 256 ≡ x % 256 = omega arith in
    let b : x % 2 ^ 32 / 256 % 256 ≡ x / 256 % 256 = omega arith in
    let c : x % 2 ^ 32 / 256 / 256 % 256 ≡ x / 256 / 256 % 256 = omega arith in
    let d : x % 2 ^ 32 / 256 / 256 / 256 % 256 ≡ x / 256 / 256 / 256 % 256 = omega arith in
    rw (a, b, c, d) refl

-- The word that a piece is sent in gives the piece back, whatever follows it.
take-sent :
    (bs others : Bytes)
    → IsText bs
    → length bs ≤ 4
    → take (length bs) (le_bytes 4 (of_le_bytes (bs ++ others) % 2 ^ 32)) ≡ bs
take-sent bs others h le =
    let four : length bs + (4 - length bs) ≡ 4 = omega arith in
    let p = take-le_bytes bs others (4 - length bs) h in
    rw (le_bytes-mod (of_le_bytes (bs ++ others))) (rw four at p)

take-append_add : (xs ys : Bytes) (n : ℕ) → take (length xs + n) (xs ++ ys) ≡ xs ++ take n ys
take-append_add [] ys n = ap (λ k. take k ys) (omega arith)
take-append_add (x ∷ xs) ys n =
    let size : suc (length xs) + n ≡ suc (length xs + n) = omega arith in
    rw (size, take-append_add xs ys n) refl

module _ (e : Env) (stale : Trace → ℕ) (fuel : ℕ) (memory : Bytes) (total left : ℕ)
    (t : Trace) where
  -- The word that a round sends after it has read some bytes, and the registers of its call.
  abbrev word : Bytes → ℕ
  word bytes = of_le_bytes (bytes ++ drop (chunk_of left) (le_bytes 8 (stale t)))

  abbrev put_call : Bytes → Cpu
  put_call bytes = record {
    eax = back_magic;
    ebx = word bytes % 2 ^ 32;
    ecx = set_clip_data;
    edx = back_port;
    esi = word bytes;
    edi = 0;
    ebp = 0;
  }

  put-more :
      {bytes : Bytes}
      → read_at memory (total - left) (chunk_of left) ≡ some bytes
      → leb left 4 ≡ false
      → put_words e stale (suc fuel) memory total left t
        ≡ put_words e stale fuel memory total (left - 4) (port_in (put_call bytes) ∷ t)
  unfolding put_words backdoor_call
  put-more got more = rw (got, more) refl

  put-last :
      {bytes : Bytes}
      → read_at memory (total - left) (chunk_of left) ≡ some bytes
      → leb left 4 ≡ true
      → put_words e stale (suc fuel) memory total left t
        ≡ done (some tt) (port_in (put_call bytes) ∷ t)
  unfolding put_words backdoor_call
  put-last got last = rw (got, last) refl

module _ (e : Env) (stale : Trace → ℕ) (text rest : Bytes) where
  -- What a round reads.
  read-next :
      (so_far todo : Bytes)
      → so_far ++ todo ≡ text
      → read_at (text ++ rest) (length text - length todo) (chunk_of (length todo))
        ≡ some (take 4 todo)
  read-next so_far todo whole =
      let sizes : length so_far + length todo ≡ length text =
        rw (sym (length-append so_far todo), whole) refl in
      let at : length text - length todo ≡ length so_far = omega arith in
      let len : chunk_of (length todo) ≡ length (take 4 todo) = grind (arith, length-take 4 todo) in
      let parts : text ++ rest ≡ so_far ++ (take 4 todo ++ (drop 4 todo ++ rest)) =
        rw
          (
            sym whole,
            append_assoc so_far todo rest,
            sym (append_assoc (take 4 todo) (drop 4 todo) rest),
            take-append-drop 4 todo,
          )
          refl in
      rw (at, len, parts) (read_at-append so_far (take 4 todo) (drop 4 todo ++ rest))

  -- The last word completes the text.
  ends :
      (so_far todo others : Bytes)
      → so_far ++ todo ≡ text
      → IsText todo
      → length todo ≤ 4
      → take (length text) (so_far ++ le_bytes 4 (of_le_bytes (todo ++ others) % 2 ^ 32)) ≡ text
  ends so_far todo others whole h le =
      let sizes : length text ≡ length so_far + length todo =
        rw (sym whole) (length-append so_far todo) in
      let given = take-sent todo others h le in
      let add =
        take-append_add so_far (le_bytes 4 (of_le_bytes (todo ++ others) % 2 ^ 32)) (length todo) in
      rw sizes (add ∙ ap (λ x. so_far ++ x) given ∙ whole)

  put_words-text :
      (fuel : ℕ) (so_far todo : Bytes) (t : Trace)
      → IsText todo
      → so_far ++ todo ≡ text
      → announced t ≡ length text
      → received t ≡ so_far
      → length todo < fuel
      → Returns
          (λ o t'.
            (o ≡ some tt)
            × (announced t' ≡ length text)
            × (take (length text) (received t') ≡ text))
          (put_words e stale fuel (text ++ rest) (length text) (length todo) t)
  put_words-text zero so_far todo t h whole told so fits = absurd (omega arith)
  put_words-text (suc fuel) so_far todo t h whole told so fits =
      elim (Bool-cases (leb (length todo) 4)) [
        | inl last ↦
            rw
              (put-last e stale fuel (text ++ rest) (length text) (length todo) t
                (read-next so_far todo whole) last)
              (
                refl,
                told,
                rw (so, take-all 4 todo (leb→le (length todo) 4 last))
                    (ends so_far todo _ whole h (leb→le (length todo) 4 last)),
              )
        | inr more ↦
            rw
              (put-more e stale fuel (text ++ rest) (length text) (length todo) t
                (read-next so_far todo whole) more)
              (let others : Bytes = drop (chunk_of (length todo)) (le_bytes 8 (stale t)) in
                let over : 4 < length todo = ground arith in
                let four : length (take 4 todo) ≡ 4 = grind (arith, length-take 4 todo) in
                let given : le_bytes 4 (of_le_bytes (take 4 todo ++ others) % 2 ^ 32)
                    ≡ take 4 todo =
                  rw four at
                    (take-sent (take 4 todo) others (IsText-take 4 todo h) (omega arith)) in
                let whole' : (so_far ++ take 4 todo) ++ drop 4 todo ≡ text =
                  rw (append_assoc so_far (take 4 todo) (drop 4 todo), take-append-drop 4 todo)
                    whole in
                let next =
                  put_words-text fuel (so_far ++ take 4 todo) (drop 4 todo)
                    (port_in (
                        put_call e stale fuel (text ++ rest) (length text) (length todo) t
                          (take 4 todo))
                      ∷ t)
                    (IsText-drop 4 todo h) whole' told (rw (so, given) refl)
                    (omega (arith, length-drop 4 todo)) in
                rw (length-drop 4 todo) at next)
      ]

-- In VMware, and for a text of 1 to 2 ^ 32 - 1 characters with memory behind it for a terminator,
-- SetHostClipboard ends, within its fuel and inside that memory, with B_OK; the host was told the length
-- of the text and then given words whose first bytes are the text, whatever stood in `param`.
pub set_host_clipboard-text :
    (e : Env) (b : CoreBackdoor) (stale : Trace → ℕ) (text rest : Bytes) (t : Trace)
    → IsText text
    → b.in_vmware ≡ true
    → 0 < length text
    → length text < 2 ^ 32
    → 0 < length rest
    → Returns
        (λ s t'.
          (s ≡ ok) × (announced t' ≡ length text) × (take (announced t') (received t') ≡ text))
        (set_host_clipboard e b stale (some (text ++ rest)) (length text) t)
unfolding set_host_clipboard backdoor_call
set_host_clipboard-text e b stale text rest t h inside some_text fits room =
    let good : (length text == 0) ≡ false = ground arith in
    let ended : write_at (text ++ rest) (length text) (0 ∷ []) ≡ some (text ++ (0 ∷ drop 1 rest)) =
      write_at-append text (0 ∷ []) rest room
      ∙ ap some (append_assoc text (0 ∷ []) (drop 1 rest)) in
    let small : length text % 2 ^ 32 ≡ length text = omega arith in
    rw (inside, good, ended, strlen-text text (drop 1 rest) h, small)
      (Returns-bind
        (λ o t'.
          (o ≡ some tt) × (announced t' ≡ length text) × (take (length text) (received t') ≡ text))
        _
        (put_words e stale (length text + 1) (text ++ (0 ∷ drop 1 rest)) (length text)
          (length text))
        _ _
        (put_words-text e stale text (0 ∷ drop 1 rest) (length text + 1) [] text _ h refl small refl
          (omega arith))
        (λ o t' (eq, size, given). rw eq (refl, size, rw size given)))

-- The memory of a C string ends with its terminator where SetHostClipboard is given one length more: a
-- caller that passes a block of just `length` bytes makes it write its terminator outside the block.
pub set_host_clipboard-faults :
    (e : Env) (b : CoreBackdoor) (stale : Trace → ℕ) (memory : Bytes) (t : Trace)
    → b.in_vmware ≡ true
    → 0 < length memory
    → set_host_clipboard e b stale (some memory) (length memory) t ≡ fault
unfolding set_host_clipboard write_at
set_host_clipboard-faults e b stale memory t inside some_text =
    let good : (length memory == 0) ≡ false = ground arith in
    let out : write_at memory (length memory) (0 ∷ []) ≡ none = ground arith in
    rw (inside, good, out) refl
