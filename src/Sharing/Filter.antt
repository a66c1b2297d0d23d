-- ===== src/Sharing/Filter.antt =====
-- vmware_mouse/VMWareMouse.cpp: the input_server filter that puts the host's position of the pointer into
-- mouse messages, and the watcher of the settings file.
pub mod Laws
use vmware_addons.Base.{
  ℕ, Bool, true, false, not, Option, none, some, Bytes, [], ◌∷◌, ltb, ◌||◌, ◌^◌, cond,
}
use vmware_addons.Machine.{Env, M, Status, ok, error, interrupted, pure, if◌then◌else◌, ◌>>=◌, ◌>>◌}
use vmware_addons.Backdoor.{CoreBackdoor, backdoor_call}
use vmware_addons.Sharing.{disable_mouse_sharing, enable_mouse_sharing, get_cursor_position}
use vmware_addons.Sharing.Settings.{Storage, Settings, State, get_bool, new_settings, reload}

-- `what` of a BMessage.
pub data What : Type 0 where
  mouse_up mouse_down mouse_moved : What
  another : ℕ → What

pub data FilterResult : Type 0 where
  dispatch_message skip_message : FilterResult

-- A message, with its point "where" if it has one, in patterns of `int32`.
pub record Message : Type 0 where
  pub what : What
  pub position : Option (ℕ × ℕ)

-- BMessage::ReplacePoint for "where": there must be one.
abbrev pub replace_point : Message → ℕ → ℕ → Message
replace_point m x y = elim m.position [ none ↦ m | some old ↦ record m { position = some (x, y) } ]

abbrev pub is_mouse : What → Bool
is_mouse (another n) = false
is_mouse _ = true

abbrev pub is_error : Status → Bool
is_error error = true
is_error _ = false

abbrev pub is_interrupted : Status → Bool
is_interrupted interrupted = true
is_interrupted _ = false

abbrev pub is_moved : What → Bool
is_moved mouse_moved = true
is_moved _ = false

-- "mouse_enabled"
abbrev pub mouse_enabled : Bytes
mouse_enabled = 109 ∷ 111 ∷ 117 ∷ 115 ∷ 101 ∷ 95 ∷ 101 ∷ 110 ∷ 97 ∷ 98 ∷ 108 ∷ 101 ∷ 100 ∷ []

module _ (e : Env) (b : CoreBackdoor) where
  -- VMWareMouseFilter::InitCheck
  unfoldable pub init_check : Status
  init_check = cond b.in_vmware ok error

  -- `scale_x` and `scale_y` are _ScalePosition, of the screen's frame and in
  -- floating point; `garbage` is in `x` and `y` before GetCursorPosition.
  module _ (scale_x scale_y : ℕ → ℕ) (garbage : ℕ × ℕ) where
    -- VMWareMouseFilter::Filter, with gActivated.
    unfoldable pub filter : Bool → Message → M (FilterResult × Message)
    unfolding get_cursor_position disable_mouse_sharing enable_mouse_sharing
    filter activated message =
        if not activated
        then pure (dispatch_message, message)
        else if not (is_mouse message.what)
        then pure (dispatch_message, message)
        else do
          (ret, found) ← get_cursor_position e b
          let at : ℕ × ℕ = elim found [ none ↦ garbage | some xy ↦ xy ]
          let x : ℕ = scale_x at.0
          let y : ℕ = scale_y at.1
          if is_error ret
              then (do
                disabled ← disable_mouse_sharing e b
                enabled ← enable_mouse_sharing e b
                pure (dispatch_message, message))
              else if is_interrupted ret
              then pure (cond (is_moved message.what) skip_message dispatch_message, message)
              else if not (ltb x (2 ^ 31)) || not (ltb y (2 ^ 31))
              then pure (dispatch_message, message)
              else pure (dispatch_message, replace_point message x y)

  module _ (s : Storage) where
    -- The constructor of VMWareMouseFilter: gActivated and gSettings.
    unfoldable pub new_filter : s.File → Bool × State s
    unfolding new_settings get_bool
    new_filter file =
        let st : State s = new_settings s file in (get_bool s (st.0) mouse_enabled true, st)

    -- VMWareSettingsWatcher::MessageReceived for B_NODE_MONITOR: gActivated and gSettings.
    unfoldable pub settings_changed : State s → M (Bool × State s)
    unfolding disable_mouse_sharing enable_mouse_sharing
    settings_changed st =
        let now : State s = reload s st in
        let activated : Bool = get_bool s (now.0) mouse_enabled true in
        do
          done_ ← if activated then enable_mouse_sharing e b else disable_mouse_sharing e b
          pure (activated, now)

  -- The destructor of VMWareMouseFilter, as far as the backdoor is concerned.
  unfoldable pub delete_filter : M Status
  unfolding disable_mouse_sharing
  delete_filter = disable_mouse_sharing e b
