-- ===== src/Examples/Screen.antt =====
-- Examples of the video accelerant and its driver.
use vmware_addons.Base.{
  ℕ, ◌*◌, ◌%◌, ◌^◌, ◌+◌, ◌<◌, ◌≤◌, ◌≡◌, ◌⊎◌, refl, true, ◌==◌, List, [], ◌∷◌, some, cond, arith,
}
use vmware_addons.Machine.{ok}
use vmware_addons.Video.Benaphore.{
  Lock, Phase, Steps, acquire_add, enter, init_ben, outside, stay, then_,
}
use vmware_addons.Video.Benaphore.Exclusion.{benaphore-exclusion, is_inside, is_waiting, total}
use vmware_addons.Video.Benaphore.Progress.{Admits, benaphore-Admits}
use vmware_addons.Video.Fifo.{Fifo, fifo_batch, fifo_init, fifo_next_cmd_reg, fifo_stop_reg}
use vmware_addons.Video.Fifo.Ring.{IsSync}
use vmware_addons.Video.Fifo.Batches.{Holds, fifo_batch-Holds, fifo_batch-overruns, fifo_init-Holds}
use vmware_addons.Video.Fifo.Queue.{IsQueue, Runs, Runs-IsQueue, advance, begins, draws, reads}
use vmware_addons.Video.Fifo.Updating.{updates_of}
use vmware_addons.Video.Driver.{Answers, Kernel, Shared, new_device, no_shared, open_hook}
use vmware_addons.Video.Driver.Areas.{owned}
use vmware_addons.Video.Driver.Serving.{loaded, opened, Serves-Owns}
use vmware_addons.Video.Driver.Control.{rgb32}
use vmware_addons.Video.Modes.{bytes_per_row_of, Accelerant, Mode, set_display_mode}
use vmware_addons.Video.Modes.Setting.{HasMode, set_display_mode-Holds}

abbrev two_outside : List Phase
two_outside = outside ∷ outside ∷ []

-- Both threads have added; the second waits.
abbrev contended : Lock
contended = acquire_add (acquire_add (init_ben two_outside) 0) 1

both_entered : Steps (init_ben two_outside) contended
unfolding acquire_add
both_entered =
    then_ (then_ stay (enter (init_ben two_outside) 0 refl))
      (enter (acquire_add (init_ben two_outside) 0) 1 refl)

benaphore-exclusion_example :
    (contended.ben ≡ total is_waiting contended.threads + total is_inside contended.threads)
    × (total is_inside contended.threads ≤ 1)
benaphore-exclusion_example =
    benaphore-exclusion two_outside contended refl (omega arith) both_entered

benaphore-Admits_example : Admits contended 1
unfolding acquire_add
benaphore-Admits_example =
    benaphore-Admits two_outside contended 1 refl (omega arith) both_entered refl

-- A ring of 8 words behind 4 registers.
abbrev pub idle : Fifo
idle = record {
  words = λ i. 0;
  fifo_size = 48;
  fifo_min = 4;
  capabilities = 0;
  fifo_capabilities = 0;
  fifo_flags = 0;
  fifo_next = 0;
}

abbrev fresh : Fifo
fresh = fifo_init idle

fresh-Holds : Holds fresh 4 8 0 []
fresh-Holds = fifo_init-Holds idle 8 (omega arith) refl (omega arith) (omega arith)

abbrev pub sync : (ℕ → ℕ) → ℕ → ℕ
sync words i = cond (i == fifo_stop_reg) (words fifo_next_cmd_reg) (words i)

sync-IsSync : IsSync sync
sync-IsSync words = (refl, (λ i ne. ground arith))

abbrev command : List ℕ
command = 1 ∷ 0 ∷ 0 ∷ 640 ∷ 480 ∷ []

-- The command is sent, and VMware reads its first word.
abbrev sent_once : (g : Fifo) × (fifo_batch sync fresh command ≡ some g) × Holds g 4 8 0 command
sent_once = fifo_batch-Holds sync 4 8 0 fresh [] command fresh-Holds (omega arith)

one_read : Runs sync 4 8 (advance 4 8 0 sent_once.0) 1 (sent_once.0.words 4 ∷ []) command
one_read = reads (draws command (begins fresh-Holds) (omega arith) sent_once.1) (omega arith)

Runs-IsQueue_example : IsQueue 4 8 (advance 4 8 0 sent_once.0) 1 (sent_once.0.words 4 ∷ []) command
Runs-IsQueue_example = Runs-IsQueue sync-IsSync one_read

-- A ring of 32 words behind the registers.
abbrev pub wide : Fifo
wide = record idle { fifo_size = 144 }

pub wide-Holds : Holds (fifo_init wide) 4 32 0 []
wide-Holds = fifo_init-Holds wide 32 (omega arith) refl (omega arith) (omega arith)

fifo_batch-overruns_example :
    (g : Fifo) × (fifo_batch sync fresh (1 ∷ 2 ∷ 3 ∷ 4 ∷ 5 ∷ 6 ∷ 7 ∷ 8 ∷ []) ≡ some g)
    × (g.words fifo_next_cmd_reg ≡ g.words fifo_stop_reg)
fifo_batch-overruns_example =
    fifo_batch-overruns sync 4 8 0 fresh [] (1 ∷ 2 ∷ 3 ∷ 4 ∷ 5 ∷ 6 ∷ 7 ∷ 8 ∷ []) fresh-Holds
      (omega arith) refl

-- A device that has a palette, and gives areas by the number of those read so far.
abbrev pub answers : Answers
answers = record {
  register = λ k i. cond (i == 0) 0x90000002 (cond (i == 8) 1 4);
  area = λ k. some k.reads;
  reachable = λ k. true;
}

abbrev pub start : Kernel
start = record { live = λ i. 0; written = []; reads = 0; pci_command = 0 }

Serves-Owns_example :
    ((open_hook answers new_device start).2.live 0
      ≡ start.live 0 + owned ((open_hook answers new_device start).1) 0)
    × ((0 < (open_hook answers new_device start).1.is_open)
        ⊎ ((open_hook answers new_device start).2.live 0 ≡ start.live 0))
Serves-Owns_example =
    Serves-Owns answers start ((open_hook answers new_device start).1)
      ((open_hook answers new_device start).2) 0 (opened loaded (omega arith))

abbrev screen : Mode
screen = record { virtual_width = 640; virtual_height = 480; space = rgb32 }

abbrev pub large : Shared
large = record no_shared { max_width = 1024; max_height = 768 }

abbrev pub accelerant : Accelerant
accelerant = record {
  dm = screen;
  fifo = idle;
  device = record { is_open = 1; shared_area = some 1; si = some large };
  kernel = start;
  blanked = 0;
}

-- The update thread sends one update before that of the mode, and one after it.
set_display_mode-Holds_example :
    (y : Accelerant) × (set_display_mode answers sync 1 1
        (record accelerant { fifo = wide })
        large
        screen
      ≡ (ok, some y))
    × (y.dm ≡ screen)
    × HasMode y.kernel screen
    × (y.blanked ≡ 480 * bytes_per_row_of y.device % 2 ^ 32)
    × Holds y.fifo 4 32 0 (updates_of 640 480 3)
set_display_mode-Holds_example =
    set_display_mode-Holds answers sync 1 1 (record accelerant { fifo = wide }) large screen 32 refl
      (λ k. refl) (omega arith) refl (omega arith) (omega arith) refl
