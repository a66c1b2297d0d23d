-- ===== src/Video/Loading.antt =====
-- vmware_video/kernel/driver.c: looking for the device on the PCI bus, and loading and unloading the driver.
pub mod Balance
use vmware_addons.Base.{
  ℕ, zero, suc, ◌+◌, ◌-◌, Bool, true, false, not, ◌&&◌, Option, none, some, Bytes, List, [], ◌∷◌,
  ◌==◌, cond, same, if◌then◌else◌,
}
use vmware_addons.Machine.{Status, ok, error, other}
use vmware_addons.Video.Driver.{Device, new_device}

-- The fields of pci_info that are compared.
pub record PciInfo : Type 0 where
  pub vendor_id : ℕ
  pub device_id : ℕ

-- What the kernel answers: whether the PCI module is there, `get_nth_pci_info`, and whether there is memory
-- for DeviceData, a semaphore, and memory for the name.
pub record Bus : Type 0 where
  pub has_module : Bool
  pub nth : ℕ → Option PciInfo
  pub has_memory : Bool
  pub has_sem : Bool
  pub has_name : Bool

-- What the driver holds: references to the PCI module, blocks of memory, semaphores.
pub record Held : Type 0 where
  pub modules : ℕ
  pub blocks : ℕ
  pub sems : ℕ

-- DeviceData: `names[0]`, whether the benaphore has its semaphore, the device, and its place on the bus.
pub record DeviceData : Type 0 where
  pub name : Option Bytes
  pub has_sem : Bool
  pub device : Device
  pub pcii : PciInfo

abbrev pub pci_vendor_id_vmware : ℕ
pci_vendor_id_vmware = 0x15AD

abbrev pub pci_device_id_vmware_svga2 : ℕ
pci_device_id_vmware_svga2 = 0x0405

-- "graphics/vmware"
abbrev pub device_name : Bytes
device_name =
    103 ∷ 114 ∷ 97 ∷ 112 ∷ 104 ∷ 105 ∷ 99 ∷ 115 ∷ 47 ∷ 118 ∷ 109 ∷ 119 ∷ 97 ∷ 114 ∷ 101 ∷ []

-- ENODEV
abbrev pub no_device : Status
no_device = other 0

unfoldable pub is_svga : PciInfo → Bool
is_svga p = p.vendor_id == pci_vendor_id_vmware && p.device_id == pci_device_id_vmware_svga2

module _ (b : Bus) where
  -- The loop over the bus from index `i` on, with what is in `pcii`, `none` if the fuel runs out: whether it
  -- was left by `break`, and `pcii` then.
  unfoldable pub find_svga : ℕ → ℕ → PciInfo → Option (Bool × PciInfo)
  find_svga zero i p = none
  find_svga (suc fuel) i p = elim (b.nth i) [
    | none ↦ some (false, p)
    | some q ↦
        let rest : Option (Bool × PciInfo) = find_svga fuel (i + 1) q in
        cond (is_svga q) (some (true, q)) rest
  ]

  -- `get_module` and `put_module`
  abbrev pub get_module : Held → Held
  get_module h = record h { modules = h.modules + 1 }

  abbrev pub put_module : Held → Held
  put_module h = record h { modules = h.modules - 1 }

  -- init_hardware, with a local `pcii` that holds `stale`.
  unfoldable pub init_hardware : ℕ → PciInfo → Held → Option (Status × Held)
  unfolding find_svga
  init_hardware fuel stale h =
      if not b.has_module then some (error, h) else elim (find_svga fuel 0 stale) [
        | none ↦ none
        | some (found, p) ↦ some (cond found ok error, put_module (get_module h))
      ]

  -- init_driver, with the DeviceData that it leaves in gPd.
  unfoldable pub init_driver : ℕ → Held → Option (Status × Option DeviceData × Held)
  unfolding find_svga
  init_driver fuel h =
      let bus : Held = get_module h in
      let alloc : Held = record bus { blocks = bus.blocks + 1 } in
      let freed : Held = record alloc { blocks = alloc.blocks - 1 } in
      if not b.has_module
      then some (error, none, h)
      else if not b.has_memory
      then some (error, none, put_module bus)
      else elim (find_svga fuel 0 (record { vendor_id = 0; device_id = 0 })) [
        | none ↦ none
        | some (found, p) ↦ some (
            if not found then (no_device, none, put_module freed) else (
              ok,
              some (record {
                name = cond b.has_name (some device_name) none;
                has_sem = b.has_sem;
                device = new_device;
                pcii = p;
              }),
              record alloc {
                sems = alloc.sems + cond b.has_sem 1 0;
                blocks = alloc.blocks + cond b.has_name 1 0;
              },
            ))
      ]

-- publish_devices: the names up to the NULL.
unfoldable pub publish_devices : DeviceData → List Bytes
publish_devices d = elim d.name [ none ↦ [] | some n ↦ n ∷ [] ]

-- find_device: whether the hooks are given.
unfoldable pub find_device : DeviceData → Bytes → Bool
find_device d name = elim d.name [ none ↦ false | some n ↦ same n name ]

-- uninit_driver
unfoldable pub uninit_driver : DeviceData → Held → Held
uninit_driver d h = record {
  modules = h.modules - 1;
  blocks = h.blocks - elim d.name [ none ↦ 0 | some n ↦ 1 ] - 1;
  sems = h.sems - cond d.has_sem 1 0;
}
