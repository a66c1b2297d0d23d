-- ===== src/Video/Driver/Control.antt =====
-- ControlHook of vmware_video/kernel/device.c, with UpdateCursor and the palette.
pub mod Palette
use vmware_addons.Base.{
  ℕ, zero, suc, ◌+◌, ◌*◌, ◌%◌, ◌^◌, Bool, true, false, not, Option, none, some, Bytes, List, [],
  ◌∷◌, ◌==◌, cond, get_or, if◌then◌else◌,
}
use vmware_addons.Machine.{Status, ok, error, bad_address, dev_invalid_ioctl}
use vmware_addons.Video.Driver.{Answers, Device, Kernel, Shared, read_reg, write_reg}

-- The colour spaces that BppForSpace knows.
pub data Space : Type 0 where
  rgb32 rgb24 rgb16 rgb15 cmap8 another_space : Space

-- BppForSpace
abbrev pub bpp_for_space : Space → ℕ
bpp_for_space rgb32 = 32
bpp_for_space rgb24 = 24
bpp_for_space rgb16 = 16
bpp_for_space rgb15 = 15
bpp_for_space cmap8 = 8
bpp_for_space another_space = 0

-- A request, with what is in the caller's buffer where the driver reads it.
pub data Ioctl : Type 0 where
  get_accelerant_signature get_private_data fifo_start fifo_stop fifo_sync get_device_name : Ioctl
  set_mode : ℕ → ℕ → Space → Ioctl
  set_palette : Bytes → Ioctl
  move_cursor : ℕ → ℕ → Ioctl
  show_cursor : Bool → Ioctl
  another_request : Ioctl

abbrev pub palette_base : ℕ
palette_base = 1024

-- UpdateCursor
unfoldable pub update_cursor : Shared → Kernel → Kernel
update_cursor s k =
    write_reg 27 (cond s.cursor_show 1 0)
      (write_reg 26 s.cursor_y (write_reg 25 s.cursor_x (write_reg 24 1 k)))

-- The loop over the palette from colour `i` on, three bytes a colour; the array has all its bytes.
unfoldable pub write_palette : ℕ → ℕ → Bytes → Kernel → Kernel
write_palette zero i colors k = k
write_palette (suc left) i colors k = write_palette left (i + 1) colors (
    write_reg (palette_base + 3 * i + 2) (get_or colors (3 * i + 2) 0) (
      write_reg (palette_base + 3 * i + 1) (get_or colors (3 * i + 1) 0)
        (write_reg (palette_base + 3 * i) (get_or colors (3 * i) 0) k)))

module _ (a : Answers) where
  -- `while (ReadReg(SVGA_REG_BUSY));`, `none` if the fuel runs out.
  unfoldable pub wait_idle : ℕ → Kernel → Option Kernel
  wait_idle zero k = none
  wait_idle (suc fuel) k =
      let busy : ℕ × Kernel = read_reg a 22 k in
      let rest : Option Kernel = wait_idle fuel busy.1 in if busy.0 == 0 then some busy.1 else rest

  -- The answer of a request that changes neither the device nor its registers but for a copy.
  abbrev pub copied : Device → Kernel → Option (Status × Device × Kernel)
  copied d k = some (if a.reachable k then ok else bad_address, d, k)

  -- ControlHook of an open device; `none` where the device stays busy for ever.
  unfoldable pub control_hook :
      ℕ → Device → Shared → Ioctl → Kernel → Option (Status × Device × Kernel)
  unfolding update_cursor write_palette wait_idle
  control_hook fuel d s get_accelerant_signature k = copied d k
  control_hook fuel d s get_private_data k = copied d k
  control_hook fuel d s get_device_name k = copied d k
  control_hook fuel d s fifo_start k = some (ok, d, write_reg 20 1 k)
  control_hook fuel d s fifo_stop k = some (ok, d, write_reg 1 0 (write_reg 20 0 k))
  control_hook fuel d s fifo_sync k = elim (wait_idle fuel (write_reg 21 1 k)) [
    | none ↦ none
    | some k' ↦ some (ok, d, k')
  ]
  control_hook fuel d s (set_mode width height space) k =
      let set : Kernel =
        write_reg 1 1
          (write_reg 7 (bpp_for_space space) (write_reg 3 height (write_reg 2 width k))) in
      let offset : ℕ × Kernel = read_reg a 14 set in
      let row : ℕ × Kernel = read_reg a 12 offset.1 in
      let read : Kernel = record row.1 { reads = row.1.reads + 5 } in
      let changed : Shared = record s { fb_offset = offset.0; bytes_per_row = row.0 } in
      some
        (if a.reachable k then (ok, record d { si = some changed }, read) else (bad_address, d, k))
  control_hook fuel d s (set_palette colors) k =
      let pseudo : ℕ × Kernel = read_reg a 8 k in
      some (
        if not (a.reachable k)
        then (bad_address, d, k)
        else if not (pseudo.0 == 1)
        then (error, d, pseudo.1)
        else (ok, d, write_palette 256 0 colors pseudo.1))
  control_hook fuel d s (move_cursor x y) k =
      let moved : Shared = record s { cursor_x = x % 2 ^ 16; cursor_y = y % 2 ^ 16 } in
      some (
        if a.reachable k
        then (ok, record d { si = some moved }, update_cursor moved k)
        else (bad_address, d, k))
  control_hook fuel d s (show_cursor show) k =
      let shown : Shared = record s { cursor_show = show } in
      some (
        if a.reachable k
        then (ok, record d { si = some shown }, update_cursor shown k)
        else (bad_address, d, k))
  control_hook fuel d s another_request k = some (dev_invalid_ioctl, d, k)
