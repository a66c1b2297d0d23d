-- ===== src/Video/Hooks.antt =====
-- The accelerant's hooks that go to the kernel driver or only read what it shares: MOVE_CURSOR and SHOW_CURSOR of
-- vmware_video/accelerant/Cursor.c, SET_INDEXED_COLORS and MOVE_DISPLAY of SetDisplayMode.c, and GetModeInfo.c.
pub mod Pointer
pub mod Colors
use vmware_addons.Base.{
  ℕ, zero, suc, ◌+◌, ◌-◌, ◌%◌, ◌^◌, Bool, true, false, Option, none, some, Bytes, List, [], ◌∷◌,
  ◌++◌, ltb, cond, get_elem?, length, set,
}
use vmware_addons.Machine.{Status, error}
use vmware_addons.Video.Driver.{Answers, Shared}
use vmware_addons.Video.Driver.Control.{move_cursor, set_palette, show_cursor}
use vmware_addons.Video.Modes.{Accelerant, Mode, ioctl}
use vmware_addons.Video.Cursor.{then_}

-- GET_DISPLAY_MODE
unfoldable pub get_display_mode : Accelerant → Mode
get_display_mode x = x.dm

-- frame_buffer_config
pub record FrameBufferConfig : Type 0 where
  pub frame_buffer : ℕ
  pub frame_buffer_dma : ℕ
  pub bytes_per_row : ℕ

-- GET_FRAME_BUFFER_CONFIG, with the frame buffer at `fb`.
unfoldable pub get_frame_buffer_config : ℕ → Shared → FrameBufferConfig
get_frame_buffer_config fb s = record {
  frame_buffer = (fb + s.fb_offset) % 2 ^ 64;
  frame_buffer_dma = (s.fb_dma + s.fb_offset) % 2 ^ 64;
  bytes_per_row = s.bytes_per_row;
}

-- MOVE_DISPLAY
abbrev pub move_display : ℕ → ℕ → Status
move_display h_display_start v_display_start = error

-- The loop of SET_INDEXED_COLORS from colour `i` on; `colors` is the array of 256 bytes.
unfoldable pub fill_colors : ℕ → ℕ → ℕ → Bytes → Bytes → Option Bytes
fill_colors zero i first color_data colors = some colors
fill_colors (suc left) i first color_data colors = then_ (get_elem? color_data i) λ color.
    then_ (cond (ltb (i + first) (length colors)) (some (set colors (i + first) color)) none)
      λ filled. fill_colors left (i + 1) first color_data filled

module _ (a : Answers) (sync : (ℕ → ℕ) → ℕ → ℕ) where
  -- MOVE_CURSOR
  unfoldable pub move_cursor_hook : ℕ → ℕ → Accelerant → Accelerant
  unfolding ioctl
  move_cursor_hook x y acc = ioctl a sync (move_cursor (x % 2 ^ 16) (y % 2 ^ 16)) acc

  -- SHOW_CURSOR
  unfoldable pub show_cursor_hook : Bool → Accelerant → Accelerant
  unfolding ioctl
  show_cursor_hook is_visible acc = ioctl a sync (show_cursor is_visible) acc

  -- SET_INDEXED_COLORS: `stale` is in the array before, and `behind` in the memory behind it; `none` where the
  -- loop leaves the array or the data.
  unfoldable pub set_indexed_colors : ℕ → ℕ → Bytes → Bytes → Bytes → Accelerant → Option Accelerant
  unfolding fill_colors ioctl
  set_indexed_colors count first color_data stale behind acc =
      then_ (fill_colors count 0 first color_data stale)
        λ colors. some (ioctl a sync (set_palette (colors ++ behind)) acc)
