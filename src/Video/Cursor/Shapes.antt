-- ===== src/Video/Cursor/Shapes.antt =====
-- SET_CURSOR_SHAPE and SCREEN_TO_SCREEN_BLIT of vmware_video/accelerant, through the ring.
use vmware_addons.Base.{
  ℕ, ◌+◌, ◌*◌, ◌/◌, ◌^◌, ◌<◌, ◌≤◌, ◌≡◌, ◌⊎◌, inl, inr, refl, false, Bool-cases, Option, some, Bytes,
  List, [], ◌∷◌, ◌++◌, ◌||◌, leb, length, length-append, length-replicate, replicate, arith,
}
use vmware_addons.Machine.{Env, Trace, Status, ok, error, ◌>>=◌}
use vmware_addons.Machine.Laws.{Returns, live}
use vmware_addons.Video.Fifo.{Fifo, fifo_sync}
use vmware_addons.Video.Fifo.Batches.{Holds, fifo_batch-Holds}
use vmware_addons.Video.Cursor.{
  Blit, batch_and_sync, blit_words, bpr_of, cursor_header, scanline_size_of, screen_to_screen_blit,
  set_cursor_shape,
}
use vmware_addons.Video.Cursor.Masks.{write_and_mask-Rows, write_xor_mask-Rows}

-- The ring with the words behind its queue was shown to VMware in a synchronisation.
abbrev pub Shown : ((ℕ → ℕ) → ℕ → ℕ) → ℕ → ℕ → ℕ → List ℕ → List ℕ → Option Fifo → Type 0
Shown sync base size stop q words r =
    (g : Fifo) × Holds g base size stop (q ++ words) × (r ≡ some (fifo_sync sync g))

-- The words of a line.
abbrev pub line_of : ℕ → ℕ
line_of width = (width + 31) / 32

-- What SET_CURSOR_SHAPE has to do where it draws: the command, and a line of words for each row of each mask.
abbrev pub Drawn :
    ((ℕ → ℕ) → ℕ → ℕ) → ℕ → ℕ → ℕ → List ℕ → List ℕ → ℕ → Status × Option Fifo → Type 0
Drawn sync base size stop q header n (status, r) =
    (status ≡ ok)
    × ((ands : List ℕ) × (xors : List ℕ) × (length ands ≡ n)
        × (length xors ≡ n)
        × Shown sync base size stop q (header ++ (ands ++ xors)) r)

hot_inside :
    (hot_x hot_y width height : ℕ)
    → (leb width hot_x || leb height hot_y) ≡ false
    → (hot_x < width) × (hot_y < height)
hot_inside hot_x hot_y width height good = ground arith

module _ (sync : (ℕ → ℕ) → ℕ → ℕ) (base size stop : ℕ) where
  batch_and_sync-Shown :
      (f : Fifo) (q words : List ℕ)
      → Holds f base size stop q
      → length q + length words < size
      → Shown sync base size stop q words (batch_and_sync sync f words)
  unfolding batch_and_sync
  batch_and_sync-Shown f q words h room =
      let (g, run, holds) = fifo_batch-Holds sync base size stop f q words h room in
      (g, holds, rw (batch_and_sync, run) refl)

  length-blit_words : (bs : List Blit) → length (blit_words bs) ≡ 7 * length bs
  unfolding blit_words
  length-blit_words [] = refl
  length-blit_words (b ∷ bs) = omega (arith, length-blit_words bs)

  -- In a ring that holds a queue and has room for 7 words of each rectangle, SCREEN_TO_SCREEN_BLIT shows VMware
  -- the queue and then one RECT_COPY for each rectangle, in order.
  screen_to_screen_blit-Shown :
      (f : Fifo) (q : List ℕ) (list : List Blit)
      → Holds f base size stop q
      → length q + 7 * length list < size
      → Shown sync base size stop q (blit_words list) (screen_to_screen_blit sync f list)
  unfolding screen_to_screen_blit
  screen_to_screen_blit-Shown f q list h room =
      batch_and_sync-Shown f q (blit_words list) h (omega (arith, length-blit_words list))

  module _ (e : Env) where
    -- With masks that have a row of bytes for each row of the cursor, and in a ring that holds a queue and has
    -- room for the command, SET_CURSOR_SHAPE stays inside the masks and its scanline and frees that. It refuses
    -- and leaves the ring, or shows VMware the queue and then the command, with a line of words for each row
    -- of each mask.
    pub set_cursor_shape-Drawn :
        (f : Fifo) (q : List ℕ) (width height hot_x hot_y : ℕ) (and_mask xor_mask : Bytes)
        (t : Trace)
        → width < 2 ^ 16
        → height * bpr_of width ≤ length and_mask
        → height * bpr_of width ≤ length xor_mask
        → Holds f base size stop q
        → length q + 8 + 2 * (height * line_of width) < size
        → Returns
            (λ r t'.
              (live t' ≡ live t)
              × ((r ≡ (error, some f))
                  ⊎ ((hot_x < width)
                      × (hot_y < height)
                      × Drawn sync base size stop q
                          (cursor_header hot_x hot_y width height)
                          (height * line_of width)
                          r)))
            (set_cursor_shape sync e f width height hot_x hot_y and_mask xor_mask t)
    unfolding set_cursor_shape
    set_cursor_shape-Drawn f q width height hot_x hot_y and_mask xor_mask t small held in_ h room =
        elim (Bool-cases (leb width hot_x || leb height hot_y)) [
          | inl bad ↦ rw bad (refl, inl refl)
          | inr good ↦ elim (Bool-cases (e.malloc_answer t (scanline_size_of width))) [
            | inr none_ ↦ rw (good, ◌>>=◌, none_) (refl, inl refl)
            | inl some_ ↦
                let k : ℕ = line_of width in
                let inside = hot_inside hot_x hot_y width height good in
                let whole : scanline_size_of width ≡ 4 * k = omega arith in
                let (ands, run, (len, n)) =
                  write_and_mask-Rows k height 0 (bpr_of width) and_mask (replicate (4 * k) 0)
                    (length-replicate (4 * k) 0) (omega arith) (grind arith) in
                let (xors, run', (len', n')) =
                  write_xor_mask-Rows k height 0 width (bpr_of width) and_mask xor_mask ands.0 len
                    (omega arith) (omega arith) (grind arith) (grind arith) in
                let shown =
                  batch_and_sync-Shown f q
                    (cursor_header hot_x hot_y width height ++ (ands.1 ++ xors.1)) h
                    (omega (arith, length-append ands.1 xors.1)) in
                rw (good, ◌>>=◌, some_)
                  (rw (whole, run, run')
                    (omega arith, inr (inside.0, inside.1, (refl, (ands.1, xors.1, n, n', shown)))))
          ]
        ]
