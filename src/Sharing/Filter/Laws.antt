-- ===== src/Sharing/Filter/Laws.antt =====
-- What the filter of vmware_mouse/VMWareMouse.cpp does to a message, and which pointer the host is asked
-- for.
use vmware_addons.Base.{
  ℕ, ◌^◌, ◌<◌, ◌≡◌, ◌⊎◌, inl, inr, refl, Bool, true, false, not, ◌||◌, Option, none, some, ltb,
  ◌==◌, ◌&&◌, cond, arith, ltb→lt, [], ◌∷◌, Bool-cases,
}
use vmware_addons.Machine.{Env, Trace, ok, is_ok, port_in, pure, if◌then◌else◌, ◌>>=◌}
use vmware_addons.Machine.Laws.{Returns, Returns-bind}
use vmware_addons.Backdoor.{CoreBackdoor, backdoor_call}
use vmware_addons.Sharing.{
  disable_mouse_sharing, enable_mouse_sharing, get_cursor_position, get_cursor_status,
  mouse_command, mouse_disable, mouse_req_absolute,
}
use vmware_addons.Sharing.Filter.{
  FilterResult, dispatch_message, skip_message, Message, filter, is_mouse, is_moved, replace_point,
  settings_changed, mouse_enabled, is_error, is_interrupted,
}
use vmware_addons.Sharing.Settings.{Storage, Settings, get_bool, reload, set_bool}
use vmware_addons.Sharing.Settings.Sharing.{IsMessage, reload-set_bool}

-- Whether the host was last asked for absolute positions, and not for the pointer to be its own.
abbrev pub absolute : Trace → Bool
absolute [] = false
absolute (port_in c ∷ t) =
    cond (c.ecx == mouse_command && c.ebx == mouse_req_absolute) true
      (cond (c.ecx == mouse_command && c.ebx == mouse_disable) false (absolute t))
absolute (_ ∷ t) = absolute t

module _ (e : Env) (b : CoreBackdoor) (t : Trace) where
  pub enable-absolute :
      Returns (λ s t'. absolute t' ≡ (is_ok s || absolute t)) (enable_mouse_sharing e b t)
  unfolding enable_mouse_sharing backdoor_call
  enable-absolute = ground arith

  pub disable-absolute :
      Returns (λ s t'. absolute t' ≡ (not b.in_vmware && absolute t)) (disable_mouse_sharing e b t)
  unfolding disable_mouse_sharing backdoor_call
  disable-absolute = ground arith

  pub get_cursor_position-Returns :
      Returns (λ r t'. absolute t' ≡ absolute t) (get_cursor_position e b t)
  unfolding get_cursor_position get_cursor_status backdoor_call
  get_cursor_position-Returns = ground arith

-- What the filter may do to a message: it keeps what the message is; it changes its point at most to one of
-- two coordinates that are not negative, and dispatches it then; it skips only moves, in an active filter.
abbrev pub Filtered : Bool → Message → FilterResult × Message → Type 0
Filtered activated m (r, m') =
    (m'.what ≡ m.what)
    × ((m'.position ≡ m.position)
        ⊎ ((xy : ℕ × ℕ) × (xy.0 < 2 ^ 31)
            × (xy.1 < 2 ^ 31)
            × (m'.position ≡ some xy)
            × (r ≡ dispatch_message)))
    × ((r ≡ dispatch_message) ⊎ ((activated ≡ true) × (is_moved m.what ≡ true) × (m' ≡ m)))

module _ (e : Env) (b : CoreBackdoor) (scale_x scale_y : ℕ → ℕ) (garbage : ℕ × ℕ) where
  -- Filter ends for every host. It keeps what a message is; it changes its point at most to two
  -- coordinates that are not negative, and dispatches it then; and it skips only moves, in an active
  -- filter. Only an active filter, and for a message of the mouse, calls the host.
  pub filter-Filtered :
      (activated : Bool) (m : Message) (t : Trace)
      → Returns
          (λ r t'. Filtered activated m r × (((activated && is_mouse m.what) ≡ true) ⊎ (t' ≡ t)))
          (filter e b scale_x scale_y garbage activated m t)
  unfolding filter
  filter-Filtered false m t = ((refl, inl refl, inl refl), inr refl)
  filter-Filtered true m t = elim (Bool-cases (is_mouse m.what)) [
    | inl mouse ↦ rw mouse (
        Returns-bind (λ r t'. absolute t' ≡ absolute t) _ (get_cursor_position e b) _ t
          (get_cursor_position-Returns e b t)
          (λ r u h. go (is_error r.0) (is_interrupted r.0) r.1 u))
    | inr other ↦ rw other ((refl, inl refl, inl refl), inr refl)
  ]
    where
      replaced :
          (x y : ℕ) (old : Option (ℕ × ℕ))
          → x < 2 ^ 31
          → y < 2 ^ 31
          → m.position ≡ old
          → Filtered true m (dispatch_message, replace_point m x y)
      replaced x y none hx hy h = rw (replace_point, h) (refl, inl h, inl refl)
      replaced x y (some xy) hx hy h =
          rw (replace_point, h) (refl, inr ((x, y), hx, hy, refl, refl), inl refl)

      put :
          (x y : ℕ) (u : Trace)
          → Returns
              (λ r t'. Filtered true m r × ((true ≡ true) ⊎ (t' ≡ t)))
              ((if not (ltb x (2 ^ 31)) || not (ltb y (2 ^ 31))
                  then pure (dispatch_message, m)
                  else pure (dispatch_message, replace_point m x y))
                u)
      put x y u = elim (Bool-cases (ltb x (2 ^ 31) && ltb y (2 ^ 31))) [
        | inl good ↦
            let hx : ltb x (2 ^ 31) ≡ true = ground arith in
            let hy : ltb y (2 ^ 31) ≡ true = ground arith in
            rw (hx, hy)
              (replaced x y m.position (ltb→lt x (2 ^ 31) hx) (ltb→lt y (2 ^ 31) hy) refl, inl refl)
        | inr bad ↦
            let out : (not (ltb x (2 ^ 31)) || not (ltb y (2 ^ 31))) ≡ true = ground arith in
            rw out ((refl, inl refl, inl refl), inl refl)
      ]

      go :
          (err intr : Bool) (found : Option (ℕ × ℕ)) (u : Trace)
          → Returns
              (λ r t'. Filtered true m r × ((true ≡ true) ⊎ (t' ≡ t)))
              ((let at : ℕ × ℕ = elim found [ none ↦ garbage | some xy ↦ xy ] in
                  let x : ℕ = scale_x at.0 in
                  let y : ℕ = scale_y at.1 in
                  if err
                  then (do
                    disabled ← disable_mouse_sharing e b
                    enabled ← enable_mouse_sharing e b
                    pure (dispatch_message, m))
                  else if intr
                  then pure (cond (is_moved m.what) skip_message dispatch_message, m)
                  else if not (ltb x (2 ^ 31)) || not (ltb y (2 ^ 31))
                  then pure (dispatch_message, m)
                  else pure (dispatch_message, replace_point m x y))
                u)
      go true intr found u =
          Returns-bind (λ s t'. absolute t' ≡ (not b.in_vmware && absolute u)) _
            (disable_mouse_sharing e b) _ u (disable-absolute e b u)
            (λ s u' h.
              Returns-bind (λ s' t'. absolute t' ≡ (is_ok s' || absolute u')) _
                (enable_mouse_sharing e b) _ u' (enable-absolute e b u')
                (λ s' u'' h'. ((refl, inl refl, inl refl), inl refl)))
      go false true found u = elim (Bool-cases (is_moved m.what)) [
        | inl moved ↦ rw moved ((refl, inl refl, inr (refl, refl, refl)), inl refl)
        | inr still ↦ rw still ((refl, inl refl, inl refl), inl refl)
      ]
      go false false found u =
          let at : ℕ × ℕ = elim found [ none ↦ garbage | some xy ↦ xy ] in
          put (scale_x at.0) (scale_y at.1) u

-- For a BMessage that behaves as documented, that is, whose Unflatten reads what its Flatten has written
-- without an error: if the settings file can be opened whatever is in it, and Flatten writes every
-- message without an error, then after the tray application has set "mouse_enabled", the watcher of the
-- filter makes the filter active just where that was set to true; in VMware, it leaves the host with
-- absolute positions asked for only if it was set to true.
pub settings_changed-set_bool :
    (e : Env) (b : CoreBackdoor) (s : Storage) (laws : IsMessage s) (tray : Settings s)
    (watcher : Settings s) (file : s.File) (v : Bool) (t : Trace)
    → b.in_vmware ≡ true
    → ((g : s.File) → (s.set_to g).0 ≡ ok)
    → ((m : s.Message) (g : s.File) → (s.flatten m g).0 ≡ ok)
    → Returns
        (λ r t'. (r.0 ≡ v) × ((v ≡ true) ⊎ (absolute t' ≡ false)))
        (settings_changed e b s (watcher, (set_bool s (tray, file) mouse_enabled v).1) t)
unfolding settings_changed
settings_changed-set_bool e b s laws tray watcher file v t inside opens writes =
    go v (reload-set_bool s laws tray watcher file mouse_enabled [] v true opens writes).0
  where
    go :
        (a : Bool)
        → get_bool s
            ((reload s (watcher, (set_bool s (tray, file) mouse_enabled v).1)).0)
            mouse_enabled
            true
          ≡ a
        → Returns
            (λ r t'. (r.0 ≡ a) × ((a ≡ true) ⊎ (absolute t' ≡ false)))
            (settings_changed e b s (watcher, (set_bool s (tray, file) mouse_enabled v).1) t)
    go true h =
        rw (settings_changed, h)
          (Returns-bind _ _ (enable_mouse_sharing e b) _ t (enable-absolute e b t)
            (λ x u k. (refl, inl refl)))
    go false h =
        rw (settings_changed, h)
          (Returns-bind _ _ (disable_mouse_sharing e b) _ t (disable-absolute e b t)
            (λ x u k. (refl, inr (rw inside at k))))
