-- ===== src/Video/Modes.antt =====
-- vmware_video/accelerant/ProposeDisplayMode.c and SetDisplayMode.c: changing the mode, by the ring and by
-- requests of the driver. A failed copy of a request is not noticed by the accelerant.
pub mod Setting
pub mod Listing
use vmware_addons.Base.{
  ℕ, ◌*◌, ◌%◌, ◌^◌, Bool, true, false, ◌||◌, Option, none, some, leb, ltb, if◌then◌else◌, not, suc,
}
use vmware_addons.Machine.{Status, ok, error, is_ok}
use vmware_addons.Video.Fifo.{Fifo, fifo_init, fifo_update_fullscreen, update_rounds}
use vmware_addons.Video.Driver.{Answers, Device, Kernel, Shared}
use vmware_addons.Video.Driver.Control.{Ioctl, Space, control_hook, fifo_start, fifo_stop, set_mode}

-- The fields of display_mode that are read.
pub record Mode : Type 0 where
  pub virtual_width : ℕ
  pub virtual_height : ℕ
  pub space : Space

-- The accelerant with its device: the current mode, the ring, and how many bytes of the frame buffer were
-- last blanked.
pub record Accelerant : Type 0 where
  pub dm : Mode
  pub fifo : Fifo
  pub device : Device
  pub kernel : Kernel
  pub blanked : ℕ

-- PROPOSE_DISPLAY_MODE
unfoldable pub propose_display_mode : Shared → Mode → Status
propose_display_mode s target =
    if ltb target.virtual_width 320 || ltb target.virtual_height 240
    then error
    else if ltb s.max_width target.virtual_width || ltb s.max_height target.virtual_height
    then error
    else ok

-- `gSi->bytesPerRow`, of the memory that the accelerant shares with the driver.
abbrev pub bytes_per_row_of : Device → ℕ
bytes_per_row_of d = elim d.si [ none ↦ 0 | some s ↦ s.bytes_per_row ]

module _ (a : Answers) (sync : (ℕ → ℕ) → ℕ → ℕ) where
  -- `ioctl(gFd, request, ...)`, where the device is open; these requests do not wait.
  unfoldable pub ioctl : Ioctl → Accelerant → Accelerant
  unfolding control_hook
  ioctl request x = elim x.device.si [
    | none ↦ x
    | some s ↦ elim (control_hook a 0 x.device s request x.kernel) [
      | none ↦ x
      | some r ↦ record x { device = r.1; kernel = r.2 }
    ]
  ]

  -- `n` rounds of the update thread that FifoInit has resumed.
  unfoldable pub thread_rounds : ℕ → Mode → Fifo → Option Fifo
  unfolding update_rounds
  thread_rounds n m f =
      update_rounds sync (λ i. leb n i) (suc n) 0 m.virtual_width m.virtual_height f

  -- SET_DISPLAY_MODE, `none` where FifoWrite divides by 0. What the old update thread sends before it is
  -- stopped is dropped by FifoInit. The new update thread runs beside it: it ends
  -- `before` rounds before its own update begins, and `after` rounds then. These and the update exclude
  -- each other by fifoLock, and as the thread only writes to the ring, its rounds are put after the request
  -- for the mode.
  unfoldable pub set_display_mode : ℕ → ℕ → Accelerant → Shared → Mode → Status × Option Accelerant
  unfolding propose_display_mode ioctl fifo_init fifo_update_fullscreen thread_rounds
  set_display_mode before after x s target =
      let stopped : Accelerant = ioctl fifo_stop (record x { dm = target }) in
      let fresh : Accelerant = record stopped { fifo = fifo_init stopped.fifo } in
      let moded : Accelerant =
        ioctl (set_mode target.virtual_width target.virtual_height target.space) fresh in
      let blank : ℕ = target.virtual_height * bytes_per_row_of moded.device % 2 ^ 32 in
      if not (is_ok (propose_display_mode s target)) then (error, some x) else (
        ok,
        elim (thread_rounds before target moded.fifo) [
          | none ↦ none
          | some shared ↦
              elim (fifo_update_fullscreen sync shared target.virtual_width target.virtual_height) [
                | none ↦ none
                | some drawn ↦ elim (thread_rounds after target drawn) [
                  | none ↦ none
                  | some left ↦
                      some (ioctl fifo_start (record moded { fifo = left; blanked = blank }))
                ]
              ]
        ],
      )
