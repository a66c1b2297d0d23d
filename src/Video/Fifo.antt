-- ===== src/Video/Fifo.antt =====
-- vmware_video/accelerant/Fifo.c: the ring of command words that the accelerant shares with VMware. The
-- lock around a batch is the benaphore of its own module; here a batch runs alone. The start of the
-- update thread is in the module of the accelerant's start.
pub mod Ring
pub mod Batches
pub mod Queue
pub mod Updating
use vmware_addons.Base.{
  ℕ, zero, suc, ◌+◌, ◌-◌, ◌*◌, ◌/◌, ◌%◌, ◌^◌, Bool, true, false, not, ◌||◌, Option, none, some,
  List, [], ◌∷◌, ◌==◌, cond, if◌then◌else◌, bit_and,
}

abbrev pub fifo_min_reg : ℕ
fifo_min_reg = 0

abbrev pub fifo_max_reg : ℕ
fifo_max_reg = 1

abbrev pub fifo_next_cmd_reg : ℕ
fifo_next_cmd_reg = 2

abbrev pub fifo_stop_reg : ℕ
fifo_stop_reg = 3

abbrev pub fifo_capabilities_reg : ℕ
fifo_capabilities_reg = 4

abbrev pub fifo_flags_reg : ℕ
fifo_flags_reg = 5

abbrev pub cap_extended_fifo : ℕ
cap_extended_fifo = 0x08000

abbrev pub cmd_update : ℕ
cmd_update = 1

-- The mapped memory by words, and the fields of SharedInfo that the ring needs.
pub record Fifo : Type 0 where
  pub words : ℕ → ℕ
  pub fifo_size : ℕ
  pub fifo_min : ℕ
  pub capabilities : ℕ
  pub fifo_capabilities : ℕ
  pub fifo_flags : ℕ
  pub fifo_next : ℕ

-- `fifo[at] = value`
abbrev pub put : (ℕ → ℕ) → ℕ → ℕ → ℕ → ℕ
put words at value i = cond (i == at) value (words i)

-- FifoInit, between the threads.
unfoldable pub fifo_init : Fifo → Fifo
fifo_init f =
    let extended = not (bit_and f.capabilities cap_extended_fifo == 0) in
    let w1 = put f.words fifo_min_reg (f.fifo_min * 4 % 2 ^ 32) in
    let w2 = put w1 fifo_max_reg f.fifo_size in
    let w3 = put w2 fifo_next_cmd_reg (w2 fifo_min_reg) in
    let w4 = put w3 fifo_stop_reg (w3 fifo_min_reg) in
    record f {
      words = w4;
      fifo_capabilities = cond extended (f.words fifo_capabilities_reg) 0;
      fifo_flags = cond extended (f.words fifo_flags_reg) 0;
      fifo_next = w4 fifo_next_cmd_reg;
    }

-- `sync` is what the memory is after VMware has worked off the commands up to NEXT_CMD.
module _ (sync : (ℕ → ℕ) → ℕ → ℕ) where
  -- FifoSync
  unfoldable pub fifo_sync : Fifo → Fifo
  fifo_sync f = record f { words = sync f.words }

  -- FifoWrite, `none` where it divides by a capacity of 0.
  unfoldable pub fifo_write : Fifo → ℕ → Option Fifo
  unfolding fifo_sync
  fifo_write f value =
      let capacity : ℕ = (f.words fifo_max_reg + (2 ^ 32 - f.words fifo_min_reg)) % 2 ^ 32 in
      let full : Bool =
        f.words fifo_stop_reg == (f.words fifo_next_cmd_reg + 4) % 2 ^ 32
        || (f.words fifo_stop_reg + capacity) % 2 ^ 32
          == (f.words fifo_next_cmd_reg + 4) % 2 ^ 32 in
      let synced : Fifo = if full then fifo_sync f else f in
      let words : ℕ → ℕ = put synced.words (synced.fifo_next / 4) value in
      let ahead : ℕ = (synced.fifo_next + 4 + (2 ^ 32 - words fifo_min_reg)) % 2 ^ 32 in
      if capacity == 0
      then none
      else some (record synced {
        words = words;
        fifo_next = (words fifo_min_reg + ahead % capacity) % 2 ^ 32;
      })

  -- FifoEndWrite, without the lock.
  unfoldable pub fifo_end_write : Fifo → Fifo
  fifo_end_write f = record f { words = put f.words fifo_next_cmd_reg f.fifo_next }

  -- The calls of FifoWrite in a row.
  unfoldable pub fifo_writes : Fifo → List ℕ → Option Fifo
  unfolding fifo_write
  fifo_writes f [] = some f
  fifo_writes f (value ∷ values) = elim (fifo_write f value) [
    | none ↦ none
    | some g ↦ fifo_writes g values
  ]

  -- FifoBeginWrite, some calls of FifoWrite and FifoEndWrite.
  unfoldable pub fifo_batch : Fifo → List ℕ → Option Fifo
  unfolding fifo_writes fifo_end_write
  fifo_batch f values = elim (fifo_writes f values) [
    | none ↦ none
    | some g ↦ some (fifo_end_write g)
  ]

  -- FifoUpdateFullscreen, with the virtual size of the current mode.
  unfoldable pub fifo_update_fullscreen : Fifo → ℕ → ℕ → Option Fifo
  unfolding fifo_batch
  fifo_update_fullscreen f width height = fifo_batch f (cmd_update ∷ 0 ∷ 0 ∷ width ∷ height ∷ [])

  -- UpdateThread from a round on: `dies` is gUpdateThreadDie at the start of each round; `none` where the fuel
  -- runs out or FifoWrite divides by 0.
  unfoldable pub update_rounds : (ℕ → Bool) → ℕ → ℕ → ℕ → ℕ → Fifo → Option Fifo
  unfolding fifo_update_fullscreen
  update_rounds dies zero round width height f = none
  update_rounds dies (suc fuel) round width height f =
      if dies round then some f else elim (fifo_update_fullscreen f width height) [
        | none ↦ none
        | some g ↦ update_rounds dies fuel (round + 1) width height g
      ]
