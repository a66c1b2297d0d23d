-- ===== src/Video/Cursor.antt =====
-- vmware_video/accelerant/Cursor.c and Acceleration.c: the commands that draw, as batches of the ring. The
-- words of a batch are put together here before they are written, which FifoWrite does not notice.
pub mod Bits
pub mod Masks
pub mod Pixels
pub mod Shapes
use vmware_addons.Base.{
  ℕ, zero, suc, ◌+◌, ◌-◌, ◌*◌, ◌/◌, ◌%◌, ◌^◌, Bool, true, false, not, ◌||◌, Option, none, some,
  Bytes, List, [], ◌∷◌, ◌++◌, ◌==◌, leb, cond, bit_and, bit_xor, length, get_elem?, set, take, drop,
  replicate, read_at, write_at, of_le_bytes,
}
use vmware_addons.Machine.{
  Env, M, Status, ok, error, checked, malloc, free, pure, if◌then◌else◌, ◌>>=◌, ◌>>◌,
}
use vmware_addons.Video.Fifo.{Fifo, fifo_batch, fifo_sync}

-- An access outside the memory ends the chain.
abbrev pub then_ {ℓ κ} : {A : Type ℓ} {B : Type κ} → Option A → (A → Option B) → Option B
then_ none k = none
then_ (some a) k = k a

abbrev pub cmd_rect_copy : ℕ
cmd_rect_copy = 3

abbrev pub cmd_define_cursor : ℕ
cmd_define_cursor = 19

abbrev pub cursor_id : ℕ
cursor_id = 1

-- `bpr` and `scanlineSize`
abbrev pub bpr_of : ℕ → ℕ
bpr_of width = (width + 7) / 8 % 2 ^ 16

abbrev pub scanline_size_of : ℕ → ℕ
scanline_size_of width = 4 * ((width + 31) / 32) % 2 ^ 16

-- The words of a line.
unfoldable pub line_words : ℕ → Bytes → List ℕ
line_words zero line = []
line_words (suc n) line = of_le_bytes (take 4 line) ∷ line_words n (drop 4 line)

-- WriteScanline
unfoldable pub write_scanline : ℕ → Bytes → Option (List ℕ)
unfolding line_words
write_scanline size line =
    cond (leb (4 * (size / 4)) (length line)) (some (line_words (size / 4) line)) none

-- WriteAndMask, with the rows that are left: the scanline, and the words that are written.
unfoldable pub write_and_mask : ℕ → ℕ → Bytes → ℕ → ℕ → Bytes → Option (Bytes × List ℕ)
write_and_mask zero y mask bpr size line = some (line, [])
write_and_mask (suc rows) y mask bpr size line = then_ (read_at mask (y * bpr) bpr) λ row.
    then_ (write_at line 0 row) λ copied. then_ (write_scanline size copied) λ words.
      then_ (write_and_mask rows (y + 1) mask bpr size copied)
        λ rest. some (rest.0, words ++ rest.1)

-- `scanline[byte] ^ bitMask`
unfoldable pub flip : Bytes → ℕ → ℕ → Option Bytes
flip line at bit_mask = then_ (get_elem? line at) λ old. some (set line at (bit_xor old bit_mask))

-- The loop over the pixels of a row from `x` on, of which `left` are left; the row starts at `off`.
unfoldable pub flip_pixels : ℕ → ℕ → Bytes → ℕ → Bytes → Option Bytes
unfolding flip
flip_pixels zero x mask off line = some line
flip_pixels (suc left) x mask off line = then_ (get_elem? mask (off + x / 8)) λ held.
    then_
      (cond (bit_and held (2 ^ (7 - x % 8)) == 0) (flip line (x / 8) (2 ^ (7 - x % 8))) (some line))
      λ changed. flip_pixels left (x + 1) mask off changed

-- WriteXorMask, with the rows that are left.
unfoldable pub write_xor_mask : ℕ → ℕ → ℕ → Bytes → Bytes → ℕ → ℕ → Bytes → Option (Bytes × List ℕ)
write_xor_mask zero y width and_mask xor_mask bpr size line = some (line, [])
write_xor_mask (suc rows) y width and_mask xor_mask bpr size line =
    then_ (read_at xor_mask (y * bpr) bpr) λ row. then_ (write_at line 0 row) λ copied.
      then_ (flip_pixels width 0 and_mask (y * bpr) copied) λ drawn.
        then_ (write_scanline size drawn) λ words.
          then_ (write_xor_mask rows (y + 1) width and_mask xor_mask bpr size drawn)
            λ rest. some (rest.0, words ++ rest.1)

-- The words of DEFINE_CURSOR in front of the masks.
abbrev pub cursor_header : ℕ → ℕ → ℕ → ℕ → List ℕ
cursor_header hot_x hot_y width height =
    cmd_define_cursor ∷ cursor_id ∷ hot_x ∷ hot_y ∷ width ∷ height ∷ 1 ∷ 1 ∷ []

-- One `blit_params`.
pub record Blit : Type 0 where
  pub src_left : ℕ
  pub src_top : ℕ
  pub dest_left : ℕ
  pub dest_top : ℕ
  pub width : ℕ
  pub height : ℕ

-- The words that SCREEN_TO_SCREEN_BLIT writes.
unfoldable pub blit_words : List Blit → List ℕ
blit_words [] = []
blit_words (b ∷ bs) =
    cmd_rect_copy
    ∷ b.src_left
    ∷ b.src_top
    ∷ b.dest_left
    ∷ b.dest_top
    ∷ (b.width + 1)
    ∷ (b.height + 1)
    ∷ blit_words bs

module _ (sync : (ℕ → ℕ) → ℕ → ℕ) where
  -- A batch and FifoSync.
  unfoldable pub batch_and_sync : Fifo → List ℕ → Option Fifo
  unfolding fifo_batch fifo_sync
  batch_and_sync f words = then_ (fifo_batch sync f words) λ g. some (fifo_sync sync g)

  -- SCREEN_TO_SCREEN_BLIT
  unfoldable pub screen_to_screen_blit : Fifo → List Blit → Option Fifo
  unfolding batch_and_sync blit_words
  screen_to_screen_blit f list = batch_and_sync f (blit_words list)

  module _ (e : Env) where
    -- SET_CURSOR_SHAPE; the ring is `none` where FifoWrite divides by 0.
    unfoldable pub set_cursor_shape :
        Fifo → ℕ → ℕ → ℕ → ℕ → Bytes → Bytes → M (Status × Option Fifo)
    unfolding batch_and_sync write_and_mask write_xor_mask
    set_cursor_shape f width height hot_x hot_y and_mask xor_mask =
        let bpr : ℕ = bpr_of width in
        let size : ℕ = scanline_size_of width in
        if leb width hot_x || leb height hot_y then pure (error, some f) else do
          got ← malloc e size
          if not got then pure (error, some f) else do
            ands ← checked (write_and_mask height 0 and_mask bpr size (replicate size 0))
            xors ← checked (write_xor_mask height 0 width and_mask xor_mask bpr size ands.0)
            freed_ ← free
            pure (
              ok,
              batch_and_sync f (cursor_header hot_x hot_y width height ++ (ands.1 ++ xors.1)),
            )
