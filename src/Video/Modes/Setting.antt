-- ===== src/Video/Modes/Setting.antt =====
-- What SET_DISPLAY_MODE of vmware_video/accelerant/SetDisplayMode.c does to the ring and the registers.
use vmware_addons.Base.{
  ℕ, suc, length-append, append_assoc, ◌++◌, ◌+◌, ◌*◌, ◌^◌, ◌<◌, ◌≤◌, ◌≡◌, refl, sym, ap, ◌%◌, ◌∙◌,
  subst, Bool, true, false, some, List, [], ◌∷◌, leb, ◌&&◌, arith,
}
use vmware_addons.Video.Fifo.Updating.{
  length-updates_of, update_rounds-Holds, updates_of, updates_of-append,
}
use vmware_addons.Video.Driver.Control.Palette.{last_value}
use vmware_addons.Machine.{ok, error, is_ok}
use vmware_addons.Video.Fifo.{Fifo, fifo_init, fifo_update_fullscreen, update_rounds, cmd_update}
use vmware_addons.Video.Fifo.Batches.{Holds, fifo_batch-Holds, fifo_init-Holds}
use vmware_addons.Video.Driver.{Answers, Kernel, Shared, write_reg}
use vmware_addons.Video.Driver.Control.{
  Ioctl, Space, bpp_for_space, control_hook, fifo_start, fifo_stop, set_mode,
}
use vmware_addons.Video.Modes.{
  bytes_per_row_of, Accelerant, Mode, ioctl, propose_display_mode, set_display_mode, thread_rounds,
}

-- A mode of 320 x 240 at least, and of the device's size at most.
abbrev pub is_fitting : Shared → Mode → Bool
is_fitting s m =
    leb 320 m.virtual_width
    && leb 240 m.virtual_height
    && leb m.virtual_width s.max_width
    && leb m.virtual_height s.max_height

-- The values last written to SVGA_REG_WIDTH, HEIGHT, BITS_PER_PIXEL, ENABLE and CONFIG_DONE are those of
-- a mode that is shown.
abbrev pub HasMode : Kernel → Mode → Type 0
HasMode k m =
    (last_value k.written 2 0 ≡ m.virtual_width % 2 ^ 32)
    × (last_value k.written 3 0 ≡ m.virtual_height % 2 ^ 32)
    × (last_value k.written 7 0 ≡ bpp_for_space m.space % 2 ^ 32)
    × (last_value k.written 1 0 ≡ 1)
    × (last_value k.written 20 0 ≡ 1)

-- A mode is accepted just where its width and height are those of 320 x 240 at least and the device's at
-- most.
pub propose_display_mode-fits :
    (s : Shared) (m : Mode) → is_ok (propose_display_mode s m) ≡ is_fitting s m
unfolding propose_display_mode
propose_display_mode-fits s m = ground arith

-- The thread's updates and that of SET_DISPLAY_MODE between them.
screen_updates :
    (sync : (ℕ → ℕ) → ℕ → ℕ) (base size before after width height : ℕ) (f : Fifo)
    → Holds f base size 0 []
    → 5 * (before + 1 + after) < size
    → (f₁ : Fifo) × (f₂ : Fifo) × (g : Fifo) × (update_rounds sync
          (λ i. leb before i)
          (suc before)
          0
          width
          height
          f
        ≡ some f₁)
      × (fifo_update_fullscreen sync f₁ width height ≡ some f₂)
      × (update_rounds sync (λ i. leb after i) (suc after) 0 width height f₂ ≡ some g)
      × Holds g base size 0 (updates_of width height (before + 1 + after))
unfolding fifo_update_fullscreen
screen_updates sync base size before after width height f h room =
    let one : List ℕ = cmd_update ∷ 0 ∷ 0 ∷ width ∷ height ∷ [] in
    let len = length-updates_of width height before in
    let (f₁, first, holds₁) =
      update_rounds-Holds sync base size 0 before before 0 width height f [] (omega arith) h
        (omega arith) in
    let (f₂, own, holds₂) =
      fifo_batch-Holds sync base size 0 f₁ (updates_of width height before) one holds₁
        (omega (arith, len)) in
    let (g, last, holds) =
      update_rounds-Holds sync base size 0 after after 0 width height f₂ _ (omega arith) holds₂
        (omega (arith, len, length-append (updates_of width height before) one)) in
    let total : before + suc after ≡ before + 1 + after = omega arith in
    let all : (updates_of width height before ++ one) ++ updates_of width height after
        ≡ updates_of width height (before + 1 + after) =
      append_assoc (updates_of width height before) one (updates_of width height after)
      ∙ (updates_of-append width height before (suc after) ∙ ap (updates_of width height) total) in
    (f₁, f₂, g, first, own, last, subst (λ q. Holds g base size 0 q) all holds)

module _ (a : Answers) (sync : (ℕ → ℕ) → ℕ → ℕ) where
  ioctl-fifo :
      (r : Ioctl) (x : Accelerant)
      → ((ioctl a sync r x).fifo ≡ x.fifo) × ((ioctl a sync r x).dm ≡ x.dm)
  unfolding ioctl
  ioctl-fifo r x = ground arith

  ioctl-stop :
      (x : Accelerant) (s : Shared)
      → x.device.si ≡ some s
      → ioctl a sync fifo_stop x ≡ record x { kernel = write_reg 1 0 (write_reg 20 0 x.kernel) }
  unfolding ioctl control_hook
  ioctl-stop x s open_ = rw open_ refl

  ioctl-start :
      (x : Accelerant) (s : Shared)
      → x.device.si ≡ some s
      → ioctl a sync fifo_start x ≡ record x { kernel = write_reg 20 1 x.kernel }
  unfolding ioctl control_hook
  ioctl-start x s open_ = rw open_ refl

  ioctl-set_mode :
      (x : Accelerant) (s : Shared) (width height : ℕ) (space : Space)
      → x.device.si ≡ some s
      → a.reachable x.kernel ≡ true
      → (t : Shared) × ((ioctl a sync (set_mode width height space) x).device.si ≡ some t)
        × ((ioctl a sync (set_mode width height space) x).kernel.written
            ≡ (1, 1)
              ∷ (7, bpp_for_space space % 2 ^ 32)
              ∷ (3, height % 2 ^ 32)
              ∷ (2, width % 2 ^ 32)
              ∷ x.kernel.written)
  unfolding ioctl control_hook
  ioctl-set_mode x s width height space open_ reach = rw (open_, reach) (_, refl, refl)

  -- A mode of at least 320 x 240 and at most the device's size is set, where the driver can read it, in a
  -- ring of fewer than 2 ^ 28 words with room for its update and those that the new update thread sends
  -- before and after: the device is enabled with the mode's width, height and bits of a pixel, the rows it
  -- then reports are blanked, and the ring is made anew and holds just these updates of the whole screen.
  pub set_display_mode-Holds :
      (before after : ℕ) (x : Accelerant) (s : Shared) (m : Mode) (size : ℕ)
      → x.device.si ≡ some s
      → ((k : Kernel) → a.reachable k ≡ true)
      → 4 ≤ x.fifo.fifo_min
      → x.fifo.fifo_size ≡ 4 * (x.fifo.fifo_min + size)
      → 5 * (before + 1 + after) < size
      → x.fifo.fifo_min + size < 2 ^ 28
      → is_fitting s m ≡ true
      → (y : Accelerant) × (set_display_mode a sync before after x s m ≡ (ok, some y))
        × (y.dm ≡ m)
        × HasMode y.kernel m
        × (y.blanked ≡ m.virtual_height * bytes_per_row_of y.device % 2 ^ 32)
        × Holds y.fifo x.fifo.fifo_min size 0
            (updates_of m.virtual_width m.virtual_height (before + 1 + after))
  unfolding set_display_mode fifo_update_fullscreen thread_rounds
  set_display_mode-Holds before after x s m size open_ reach regs whole room small fits =
      let good : is_ok (propose_display_mode s m) ≡ true = propose_display_mode-fits s m ∙ fits in
      let w : ℕ = m.virtual_width in
      let h : ℕ = m.virtual_height in
      let stopped : Accelerant = ioctl a sync fifo_stop (record x { dm = m }) in
      let fresh : Accelerant = record stopped { fifo = fifo_init stopped.fifo } in
      let moded : Accelerant = ioctl a sync (set_mode w h m.space) fresh in
      let stop_ : stopped ≡ _ = ioctl-stop (record x { dm = m }) s open_ in
      let still : fresh.device.si ≡ some s = ap (λ y. y.device.si) stop_ ∙ open_ in
      let (t, si, written) = ioctl-set_mode fresh s w h m.space still (reach fresh.kernel) in
      let kept : stopped.fifo ≡ x.fifo = (ioctl-fifo fifo_stop (record x { dm = m })).0 in
      let same_ : moded.fifo ≡ fifo_init x.fifo =
        (ioctl-fifo (set_mode w h m.space) fresh).0 ∙ ap fifo_init kept in
      let start : Holds moded.fifo x.fifo.fifo_min size 0 [] =
        subst (λ f. Holds f x.fifo.fifo_min size 0 []) (sym same_)
          (fifo_init-Holds x.fifo size regs whole (omega arith) small) in
      let (f₁, f₂, g, first, own, last, holds) =
        screen_updates sync x.fifo.fifo_min size before after w h moded.fifo start room in
      let drawn : Accelerant = record moded {
        fifo = g;
        blanked = h * bytes_per_row_of moded.device % 2 ^ 32;
      } in
      let started : ioctl a sync fifo_start drawn ≡ _ = ioctl-start drawn t si in
      (
        ioctl a sync fifo_start drawn,
        rw (set_display_mode, thread_rounds, good, first, own, last) refl,
        (ioctl-fifo fifo_start drawn).1
            ∙ (ioctl-fifo (set_mode w h m.space) fresh).1
            ∙ (ioctl-fifo fifo_stop (record x { dm = m })).1,
        rw (started, written) (refl, refl, refl, refl, refl),
        rw started refl,
        subst (λ f. Holds f x.fifo.fifo_min size 0 (updates_of w h (before + 1 + after)))
            (sym (ioctl-fifo fifo_start drawn).0) holds,
      )

  set_display_mode-refused :
      (before after : ℕ) (x : Accelerant) (s : Shared) (m : Mode)
      → is_fitting s m ≡ false
      → set_display_mode a sync before after x s m ≡ (error, some x)
  unfolding set_display_mode
  set_display_mode-refused before after x s m fails =
      rw (set_display_mode, propose_display_mode-fits s m ∙ fails) refl
