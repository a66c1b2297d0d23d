-- ===== src/Sharing.antt =====
-- shared_sources/VMWBackdoor.{h,cpp}: what the add-ons ask of VMware beside the RPC channel, here the
-- mouse, the settings of the host's window and its clock.
pub mod Clipboard
pub mod Settings
pub mod Filter
use vmware_addons.Base.{
  ℕ, ◌%◌, ◌^◌, Bool, true, false, not, Option, none, some, ◌==◌, bit_and, bit_or, bit_xor,
}
use vmware_addons.Machine.{
  Env, M, Status, ok, error, not_allowed, unsupported, interrupted, pure, if◌then◌else◌, ◌>>=◌,
  ◌>>◌,
}
use vmware_addons.Backdoor.{Regs, CoreBackdoor, backdoor_call, high_bits, low_bits}

abbrev pub vmware_error : ℕ
vmware_error = 0xFFFF

abbrev pub get_gui_setting_command : ℕ
get_gui_setting_command = 0x0D

abbrev pub set_gui_setting_command : ℕ
set_gui_setting_command = 0x0E

abbrev pub get_host_time : ℕ
get_host_time = 0x17

abbrev pub mouse_data : ℕ
mouse_data = 0x27

abbrev pub mouse_status : ℕ
mouse_status = 0x28

abbrev pub mouse_command : ℕ
mouse_command = 0x29

abbrev pub mouse_version : ℕ
mouse_version = 0x3442554A

abbrev pub mouse_disable : ℕ
mouse_disable = 0xF5

abbrev pub mouse_read : ℕ
mouse_read = 0x45414552

abbrev pub mouse_req_absolute : ℕ
mouse_req_absolute = 0x53424152

-- gui_setting
abbrev pub pointer_grab_ungrab : ℕ
pointer_grab_ungrab = 0x0003

abbrev pub clip_board_sharing : ℕ
clip_board_sharing = 0x0010

abbrev pub time_sync : ℕ
time_sync = 0x0400

-- A `regs_t` on the stack, of which the code reads nothing before a call has filled it.
abbrev pub stack_regs : Regs
stack_regs = record { eax = 0; ecx = 0; edx = 0; esi = 0; edi = 0 }

module _ (e : Env) (b : CoreBackdoor) where
  -- VMWBackdoor::EnableMouseSharing
  unfoldable pub enable_mouse_sharing : M Status
  unfolding backdoor_call
  enable_mouse_sharing = if not b.in_vmware then pure not_allowed else do
    r1 ← backdoor_call e stack_regs mouse_command mouse_read
    r2 ← backdoor_call e r1 mouse_status 0
    if not (high_bits r2.eax == 1) then pure error else do
      r3 ← backdoor_call e r2 mouse_data 1
      if not (r3.eax == mouse_version)
          then pure unsupported
          else do r4 ← backdoor_call e r3 mouse_command mouse_req_absolute; pure ok

  -- VMWBackdoor::DisableMouseSharing; -1 is 0xFFFF as an `int16`.
  unfoldable pub disable_mouse_sharing : M Status
  unfolding backdoor_call
  disable_mouse_sharing = if not b.in_vmware then pure not_allowed else do
    r1 ← backdoor_call e stack_regs mouse_command mouse_disable
    r2 ← backdoor_call e r1 mouse_status 0
    if high_bits r2.eax == 0xFFFF then pure ok else pure error

  -- VMWBackdoor::GetCursorStatus: `status` and `toRead`.
  unfoldable pub get_cursor_status : M (ℕ × ℕ)
  unfolding backdoor_call
  get_cursor_status = do
    r ← backdoor_call e stack_regs mouse_status 0
    pure (high_bits r.eax, low_bits r.eax)

  -- VMWBackdoor::GetCursorPosition; `x` and `y` are patterns of `int32`, where they are stored.
  unfoldable pub get_cursor_position : M (Status × Option (ℕ × ℕ))
  unfolding backdoor_call get_cursor_status
  get_cursor_position = if not b.in_vmware then pure (not_allowed, none) else do
    (status, to_read) ← get_cursor_status
    if status == vmware_error
        then pure (error, none)
        else if to_read == 0
        then pure (interrupted, none)
        else do
          r ← backdoor_call e stack_regs mouse_data 4
          pure (ok, some (r.esi % 2 ^ 32, r.ecx % 2 ^ 32))

  -- VMWBackdoor::GetGUISetting
  unfoldable pub get_gui_setting : ℕ → M Bool
  unfolding backdoor_call
  get_gui_setting setting = if not b.in_vmware then pure false else do
    r ← backdoor_call e stack_regs get_gui_setting_command 0
    pure (not (bit_and r.eax setting == 0))

  -- VMWBackdoor::SetGUISetting, of the builds with SET_GUI_SETTINGS. `settings` is computed, and
  -- `setting` is sent.
  unfoldable pub set_gui_setting : ℕ → Bool → M (Unit {0})
  unfolding backdoor_call
  set_gui_setting setting enabled = if not b.in_vmware then pure tt else do
    r ← backdoor_call e stack_regs get_gui_setting_command 0
    let settings : ℕ = elim enabled [
      | true ↦ bit_or r.eax setting
      | false ↦ bit_and r.eax (bit_xor r.eax setting)
    ]
    sent ← backdoor_call e r set_gui_setting_command setting
    pure tt

  -- VMWBackdoor::GetHostClock
  unfoldable pub get_host_clock : M ℕ
  unfolding backdoor_call
  get_host_clock = if not b.in_vmware then pure 0 else do
    r ← backdoor_call e stack_regs get_host_time 0
    if r.eax == 0xFFFFFFFF then pure 0 else pure r.eax
