-- ===== src/Video/Driver.antt =====
-- vmware_video/kernel/device.c and driver.h: opening and closing the device, with the areas that the
-- driver makes. The benaphore around OpenHook and FreeHook is of its own module; here a hook runs alone.
pub mod Areas
pub mod Control
pub mod Serving
use vmware_addons.Base.{
  ℕ, zero, suc, ◌+◌, ◌-◌, ◌*◌, ◌%◌, ◌^◌, Bool, true, false, not, Option, none, some, List, [], ◌∷◌,
  ◌==◌, ltb, cond, bit_and, bit_or, if◌then◌else◌,
}
use vmware_addons.Machine.{Status, ok, error, is_ok}

-- What the kernel and the device have been asked to do: how often each area is there, the registers that
-- were written, newest first, how many were read, and the PCI command register.
pub record Kernel : Type 0 where
  pub live : ℕ → ℕ
  pub written : List (ℕ × ℕ)
  pub reads : ℕ
  pub pci_command : ℕ

-- What they answer: a register's value, the number of a new area, or an error, and whether memory of the
-- caller can be reached.
pub record Answers : Type 0 where
  pub register : Kernel → ℕ → ℕ
  pub area : Kernel → Option ℕ
  pub reachable : Kernel → Bool

-- The fields of SharedInfo that the driver sets; an area is `none` where its number is negative.
pub record Shared : Type 0 where
  pub max_width : ℕ
  pub max_height : ℕ
  pub fb_dma : ℕ
  pub fb_size : ℕ
  pub fifo_dma : ℕ
  pub fifo_size : ℕ
  pub fifo_min : ℕ
  pub capabilities : ℕ
  pub fb_area : Option ℕ
  pub fifo_area : Option ℕ
  pub fb_offset : ℕ
  pub bytes_per_row : ℕ
  pub cursor_show : Bool
  pub cursor_x : ℕ
  pub cursor_y : ℕ

-- DeviceData; `si` is `none` for NULL.
pub record Device : Type 0 where
  pub is_open : ℕ
  pub shared_area : Option ℕ
  pub si : Option Shared

-- The usual initializations of init_driver.
abbrev pub new_device : Device
new_device = record { is_open = 0; shared_area = none; si = none }

-- `memset(gPd->si, 0, sizeof(SharedInfo))`
abbrev pub no_shared : Shared
no_shared = record {
  max_width = 0;
  max_height = 0;
  fb_dma = 0;
  fb_size = 0;
  fifo_dma = 0;
  fifo_size = 0;
  fifo_min = 0;
  capabilities = 0;
  fb_area = some 0;
  fifo_area = some 0;
  fb_offset = 0;
  bytes_per_row = 0;
  cursor_show = false;
  cursor_x = 0;
  cursor_y = 0;
}

abbrev pub reg_id : ℕ
reg_id = 0

abbrev pub svga_id_2 : ℕ
svga_id_2 = 0x90000002

abbrev pub pci_command_io : ℕ
pci_command_io = 1

abbrev pub pci_command_memory : ℕ
pci_command_memory = 2

-- WriteReg
abbrev pub write_reg : ℕ → ℕ → Kernel → Kernel
write_reg index value k = record k { written = (index, value % 2 ^ 32) ∷ k.written }

-- `delete_area`
abbrev pub delete_area : ℕ → Kernel → Kernel
delete_area id k = record k { live = λ i. cond (i == id) (k.live i - 1) (k.live i) }

-- `if (area >= 0) delete_area(area)`
abbrev pub delete_if : Option ℕ → Kernel → Kernel
delete_if none k = k
delete_if (some id) k = delete_area id k

module _ (a : Answers) where
  -- ReadReg
  abbrev pub read_reg : ℕ → Kernel → ℕ × Kernel
  read_reg index k = (a.register k index, record k { reads = k.reads + 1 })

  -- `create_area` and `map_physical_memory`
  abbrev pub make_area : Kernel → Option ℕ × Kernel
  make_area k = elim (a.area k) [
    | none ↦ (none, k)
    | some id ↦ (some id, record k { live = λ i. cond (i == id) (k.live i + 1) (k.live i) })
  ]

  -- CreateShared
  unfoldable pub create_shared : Device → Kernel → Status × Device × Kernel
  create_shared d k =
      let made : Option ℕ × Kernel = make_area k in
      elim made.0 [
        | none ↦ (error, record d { shared_area = none }, made.1)
        | some id ↦ (ok, record d { shared_area = some id; si = some no_shared }, made.1)
      ]

  -- FreeShared; the caller has a shared area.
  unfoldable pub free_shared : Device → Kernel → Device × Kernel
  free_shared d k = (record d { shared_area = none; si = none }, delete_if d.shared_area k)

  -- CheckCapabilities, without the ports.
  unfoldable pub check_capabilities : Shared → Kernel → Status × Shared × Kernel
  check_capabilities s k =
      let id : ℕ × Kernel = read_reg reg_id (write_reg reg_id svga_id_2 k) in
      let width : ℕ × Kernel = read_reg 4 id.1 in
      let height : ℕ × Kernel = read_reg 5 width.1 in
      let fb : ℕ × Kernel = read_reg 13 height.1 in
      let vram : ℕ × Kernel = read_reg 15 fb.1 in
      let mem : ℕ × Kernel = read_reg 18 vram.1 in
      let size : ℕ × Kernel = read_reg 19 mem.1 in
      let caps : ℕ × Kernel = read_reg 17 size.1 in
      let regs : ℕ × Kernel = read_reg 30 caps.1 in
      let extended : Bool = not (bit_and caps.0 0x08000 == 0) in
      let found : Shared = record s {
        max_width = width.0;
        max_height = height.0;
        fb_dma = fb.0;
        fb_size = vram.0;
        fifo_dma = mem.0;
        fifo_size = bit_and size.0 0xFFFFFFFC;
        capabilities = caps.0;
        fifo_min = if extended then regs.0 else 4;
      } in
      if not (id.0 == svga_id_2)
      then (error, s, id.1)
      else (ok, found, if extended then regs.1 else caps.1)

  -- MapDevice, first with write combining and then without.
  unfoldable pub map_device : Shared → Kernel → Status × Shared × Kernel
  map_device s k =
      let first : Option ℕ × Kernel = make_area k in
      let fb : Option ℕ × Kernel = elim first.0 [ none ↦ make_area first.1 | some id ↦ first ] in
      elim fb.0 [
        | none ↦ (error, record s { fb_area = none }, fb.1)
        | some id ↦
            let fifo : Option ℕ × Kernel = make_area fb.1 in
            elim fifo.0 [
              | none ↦
                  (error, record s { fb_area = some id; fifo_area = none }, delete_area id fifo.1)
              | some id' ↦ (ok, record s { fb_area = some id; fifo_area = some id' }, fifo.1)
            ]
      ]

  -- UnmapDevice
  unfoldable pub unmap_device : Shared → Kernel → Shared × Kernel
  unmap_device s k =
      let off : Kernel = record k { pci_command = bit_and k.pci_command 0xFFFD } in
      (
        record s { fb_area = none; fifo_area = none },
        delete_if s.fb_area (delete_if s.fifo_area off),
      )

  -- OpenHook from `freeShared` on.
  abbrev pub give_up : Status → Device → Kernel → Status × Device × Kernel
  give_up s d k = let freed : Device × Kernel = free_shared d k in (s, freed.0, freed.1)

  -- OpenHook of a device that is not open, from CheckCapabilities on, with what CreateShared made.
  unfoldable pub open_created : Device → Shared → Kernel → Status × Device × Kernel
  unfolding check_capabilities map_device free_shared
  open_created d s k =
      let checked_ : Status × Shared × Kernel = check_capabilities s k in
      let mapped : Status × Shared × Kernel = map_device checked_.1 checked_.2 in
      if not (is_ok checked_.0)
      then give_up checked_.0 (record d { si = some checked_.1 }) checked_.2
      else if not (is_ok mapped.0)
      then give_up mapped.0 (record d { si = some mapped.1 }) mapped.2
      else (ok, record d { si = some mapped.1; is_open = (d.is_open + 1) % 2 ^ 32 }, mapped.2)

  -- OpenHook; its error is the status here, whatever its number.
  unfoldable pub open_hook : Device → Kernel → Status × Device × Kernel
  unfolding create_shared open_created
  open_hook d k =
      let on : Kernel = record k {
        pci_command = bit_or (bit_or k.pci_command pci_command_memory) pci_command_io;
      } in
      let created : Status × Device × Kernel = create_shared d on in
      if not (d.is_open == 0)
      then (ok, record d { is_open = (d.is_open + 1) % 2 ^ 32 }, k)
      else if not (is_ok created.0)
      then created
      else open_created created.1 no_shared created.2

  -- FreeHook, `none` where it would follow a NULL `si`.
  unfoldable pub free_hook : Device → Kernel → Option (Device × Kernel)
  unfolding unmap_device free_shared
  free_hook d k =
      let last : Device × Kernel → Device × Kernel =
        λ e. (record e.0 { is_open = (d.is_open + (2 ^ 32 - 1)) % 2 ^ 32 }, e.1) in
      if not (ltb d.is_open 2) then some (last (d, k)) else elim d.si [
        | none ↦ none
        | some s ↦
            let off : Shared × Kernel = unmap_device s k in
            some (last (free_shared (record d { si = some off.0 }) off.1))
      ]
