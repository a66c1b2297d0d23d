-- ===== src/Examples/Display.antt =====
-- Examples of the driver's start, the cursor, the colours and the update thread.
use vmware_addons.Base.{
  ℕ, ◌+◌, ◌-◌, ◌%◌, ◌^◌, ◌<◌, ◌≡◌, ◌⊎◌, refl, true, false, ◌&&◌, ◌==◌, [], ◌∷◌, ◌++◌, some, none,
  Option, cond, leb, ltb, get_or, replicate, Bytes, arith,
}
use vmware_addons.Machine.{Status, error, is_ok}
use vmware_addons.Machine.Laws.{Returns, live}
use vmware_addons.Examples.{host}
use vmware_addons.Examples.Screen.{accelerant, answers, large, sync, wide, wide-Holds}
use vmware_addons.Video.Loading.{Bus, DeviceData, Held, PciInfo, init_driver, init_hardware}
use vmware_addons.Video.Loading.Balance.{HasDevices, Loaded, Same, init_driver-Loaded}
use vmware_addons.Video.Fifo.{fifo_init}
use vmware_addons.Video.Cursor.{cursor_header, flip_pixels, set_cursor_shape}
use vmware_addons.Video.Cursor.Pixels.{AreBytes, flip_pixels-pixel, is_flipped, pixel}
use vmware_addons.Video.Cursor.Shapes.{Drawn, set_cursor_shape-Drawn}
use vmware_addons.Video.Startup.{
  Globals, Replies, clone_accelerant, fifo_init_threads, init_accelerant, new_globals,
  uninit_accelerant,
}
use vmware_addons.Video.Startup.Threads.{
  Calls, Calls-IsSingle, IsSingle, alive, clones, inits, loaded, open_at, sets_mode, stale,
  uninit_accelerant-clone,
}
use vmware_addons.Video.Driver.Control.{palette_base}
use vmware_addons.Video.Driver.Control.Palette.{last_value}
use vmware_addons.Video.Modes.{Accelerant}
use vmware_addons.Video.Hooks.{set_indexed_colors}
use vmware_addons.Video.Hooks.Colors.{set_indexed_colors-value}

-- The second of two devices is VMware's.
abbrev bus : Bus
bus = record {
  has_module = true;
  nth = λ i.
      cond (ltb i 2) (some (record { vendor_id = cond (i == 0) 0x8086 0x15AD; device_id = 0x0405 }))
        none;
  has_memory = true;
  has_sem = true;
  has_name = true;
}

bus-HasDevices : HasDevices bus 2
bus-HasDevices = (
  λ i lt. (record { vendor_id = cond (i == 0) 0x8086 0x15AD; device_id = 0x0405 }, ground arith),
  refl,
)

abbrev unknown : PciInfo
unknown = record { vendor_id = 1; device_id = 2 }

abbrev nothing : Held
nothing = record { modules = 0; blocks = 0; sems = 0 }

init_driver-Loaded_example :
    (r : Status × Option DeviceData × Held) × (init_driver bus 5 nothing ≡ some r)
    × Loaded bus 2 nothing r
    × ((s : Status × Held) × (init_hardware bus 5 unknown nothing ≡ some s)
        × Same nothing s.1
        × (is_ok r.0 ≡ (is_ok s.0 && bus.has_memory)))
init_driver-Loaded_example = init_driver-Loaded bus 2 5 unknown nothing bus-HasDevices (omega arith)

-- Two rows of a cursor 8 pixels wide.
abbrev rows : Bytes
rows = 0xF0 ∷ 0x0F ∷ []

set_cursor_shape-Drawn_example :
    Returns
      (λ r t'.
        (live t' ≡ live [])
        × ((r ≡ (error, some (fifo_init wide)))
            ⊎ ((1 < 8) × (1 < 2) × Drawn sync 4 32 0 [] (cursor_header 1 1 8 2) 2 r)))
      (set_cursor_shape sync host (fifo_init wide) 8 2 1 1 rows rows [])
set_cursor_shape-Drawn_example =
    set_cursor_shape-Drawn sync 4 32 0 host (fifo_init wide) [] 8 2 1 1 rows rows [] (omega arith)
      (omega arith) (omega arith) wide-Holds (omega arith)

abbrev first_row : Bytes
first_row = 0xF0 ∷ []

first_row-AreBytes : AreBytes first_row
first_row-AreBytes i = ground arith

flip_pixels-pixel_example :
    (new : Bytes) × (flip_pixels 6 0 first_row 0 first_row ≡ some new)
    × ((i : ℕ)
        → pixel new i
          ≡ cond (is_flipped first_row 0 0 6 i) (1 - pixel first_row i) (pixel first_row i))
flip_pixels-pixel_example =
    flip_pixels-pixel 6 0 0 first_row first_row first_row-AreBytes first_row-AreBytes (omega arith)
      (omega arith)

abbrev replies : Replies
replies = record {
  has_private = λ h. true;
  clone_area = λ h. some 7;
  open_device = λ h. some 4;
  spawn_thread = λ h. some 9;
}

-- The accelerant is initialised, and then cloned in the same team after a mode was set.
abbrev shown : Globals
shown = fifo_init_threads replies ((init_accelerant replies 3 new_globals).1)

abbrev cloned_after : Globals
cloned_after = (clone_accelerant replies shown).1

cloned_after-Calls : Calls replies cloned_after
cloned_after-Calls = clones (sets_mode (inits 3 loaded))

Calls-IsSingle_example : IsSingle cloned_after
Calls-IsSingle_example = Calls-IsSingle cloned_after-Calls

uninit_accelerant-clone_example :
    ((cloned_after.is_clone ≡ false) × (alive (uninit_accelerant cloned_after).acts ≡ []))
    ⊎ ((cloned_after.is_clone ≡ true)
        × (alive (uninit_accelerant cloned_after).acts ≡ alive cloned_after.acts)
        × (stale cloned_after.fd (uninit_accelerant cloned_after).acts
            ≡ cond (leb (open_at cloned_after.fd cloned_after.acts) 1) 1 0
              + stale cloned_after.fd cloned_after.acts))
uninit_accelerant-clone_example = uninit_accelerant-clone cloned_after-Calls

abbrev colors_before : Bytes
colors_before = replicate 256 9

abbrev behind : Bytes
behind = replicate 512 7

set_indexed_colors-value_example :
    (acc' : Accelerant) × (set_indexed_colors answers sync 2 10 rows colors_before behind accelerant
      ≡ some acc')
    × (last_value acc'.kernel.written (palette_base + 11) 0
        ≡ cond
            (leb 10 11 && ltb 11 (2 + 10))
            (get_or rows (11 - 10) 0)
            (get_or (colors_before ++ behind) 11 0)
          % 2 ^ 32)
set_indexed_colors-value_example =
    set_indexed_colors-value answers sync 2 10 rows colors_before behind accelerant large 11
      (omega arith) (omega arith) refl refl refl refl (omega arith)
