-- ===== src/Video/Hooks/Pointer.antt =====
-- MOVE_CURSOR and SHOW_CURSOR of vmware_video/accelerant/Cursor.c through UpdateCursor of the driver: what the
-- device is told.
use vmware_addons.Base.{
  ℕ, ◌%◌, ◌^◌, ◌≡◌, refl, subst, Bool, true, false, some, List, [], ◌∷◌, cond, arith,
}
use vmware_addons.Video.Driver.{Answers, Kernel, Shared}
use vmware_addons.Video.Driver.Control.Palette.{last_value}
use vmware_addons.Video.Modes.{Accelerant}
use vmware_addons.Video.Hooks.{move_cursor_hook, show_cursor_hook}

-- A call of one of the two hooks.
pub data CursorCall : Type 0 where
  moves : ℕ → ℕ → CursorCall
  shows : Bool → CursorCall

module _ (a : Answers) (sync : (ℕ → ℕ) → ℕ → ℕ) where
  abbrev pub call : CursorCall → Accelerant → Accelerant
  call (moves x y) acc = move_cursor_hook a sync x y acc
  call (shows v) acc = show_cursor_hook a sync v acc

  unfoldable pub call_all : List CursorCall → Accelerant → Accelerant
  call_all [] acc = acc
  call_all (c ∷ cs) acc = call_all cs (call c acc)

-- The position and visibility that a call, or calls in a row, ask for.
abbrev pub asked : CursorCall → ℕ × ℕ × Bool → ℕ × ℕ × Bool
asked (moves x y) (u, v, show) = (x % 2 ^ 16, y % 2 ^ 16, show)
asked (shows show) (u, v, old) = (u, v, show)

abbrev pub asked_all : List CursorCall → ℕ × ℕ × Bool → ℕ × ℕ × Bool
asked_all [] p = p
asked_all (c ∷ cs) p = asked_all cs (asked c p)

abbrev pub cursor_of : Shared → ℕ × ℕ × Bool
cursor_of s = (s.cursor_x, s.cursor_y, s.cursor_show)

-- The device was last told cursor 1, at the given position and visibility.
abbrev pub Told : Kernel → ℕ × ℕ × Bool → Type 0
Told k (x, y, show) =
    (last_value k.written 24 0 ≡ 1)
    × (last_value k.written 25 0 ≡ x % 2 ^ 32)
    × (last_value k.written 26 0 ≡ y % 2 ^ 32)
    × (last_value k.written 27 0 ≡ cond show 1 0)

-- The driver's memory has the position and visibility, and the device was told them.
abbrev pub Points : ℕ × ℕ × Bool → Accelerant → Type 0
Points p acc = (s : Shared) × (acc.device.si ≡ some s) × (cursor_of s ≡ p) × Told acc.kernel p

visible_word : (c : Bool) → cond c 1 0 % 2 ^ 32 ≡ cond c 1 0
visible_word true = refl
visible_word false = refl

module _ (a : Answers) (sync : (ℕ → ℕ) → ℕ → ℕ) (near : (k : Kernel) → a.reachable k ≡ true) where
  call-Points :
      (c : CursorCall) (acc : Accelerant) (s : Shared)
      → acc.device.si ≡ some s
      → Points (asked c (cursor_of s)) (call a sync c acc)
  unfolding move_cursor_hook show_cursor_hook
  call-Points (moves x y) acc s has_si =
      let n : x % 2 ^ 16 % 2 ^ 16 ≡ x % 2 ^ 16 = omega arith in
      let m : y % 2 ^ 16 % 2 ^ 16 ≡ y % 2 ^ 16 = omega arith in
      (
        record s { cursor_x = x % 2 ^ 16; cursor_y = y % 2 ^ 16 },
        rw (move_cursor_hook, has_si, near acc.kernel, n, m) refl,
        refl,
        rw (move_cursor_hook, has_si, near acc.kernel, n, m)
            (refl, refl, refl, visible_word s.cursor_show),
      )
  call-Points (shows v) acc s has_si = (
    record s { cursor_show = v },
    rw (show_cursor_hook, has_si, near acc.kernel) refl,
    refl,
    rw (show_cursor_hook, has_si, near acc.kernel) (refl, refl, refl, visible_word v),
  )

  -- Where the driver can copy what it is asked, after any MOVE_CURSOR and SHOW_CURSOR calls, at least one, it has the
  -- last position and visibility that were asked for, and the device was last told just these.
  call_all-Points :
      (c : CursorCall) (cs : List CursorCall) (acc : Accelerant) (s : Shared)
      → acc.device.si ≡ some s
      → Points (asked_all (c ∷ cs) (cursor_of s)) (call_all a sync (c ∷ cs) acc)
  unfolding call_all
  call_all-Points c [] acc s has_si = call-Points c acc s has_si
  call_all-Points c (c' ∷ cs) acc s has_si =
      let (s', has_si', e, told) = call-Points c acc s has_si in
      subst (λ p. Points (asked_all (c' ∷ cs) p) (call_all a sync (c' ∷ cs) (call a sync c acc))) e
        (call_all-Points c' cs (call a sync c acc) s' has_si')
