-- ===== src/Tray/Volumes/Choosing.antt =====
-- The volumes that vmware_tray/VMWAddOnsSelectWindow.cpp lists, and those that it gives to the cleanup.
use vmware_addons.Base.{
  refl, sym, ℕ, zero, suc, ◌+◌, ◌≡◌, subst, ◌⊎◌, inl, inr, Bool, true, false, Bool-cases,
  Option-cases, none, some, List, [], ◌∷◌, ◌++◌, ◌==◌, ◌&&◌, cond, length, get_elem?, take, drop,
  arith,
}
use mathlib.Core.Option.{some-injective}
use vmware_addons.Tray.Volumes.{
  SelectWindow, VolumeInfo, WindowMessage, another_message, cancel_operation, cleanup_selection,
  device_mounted, device_unmounted, fill_to_cleanup, is_writable, list_volumes, new_window,
  receive_all, remove_at, remove_device, window_received,
}

abbrev pub All {ℓ} : {A : Type ℓ} → (A → Type 0) → List A → Type 0
All P [] = Unit {0}
All P (x ∷ xs) = P x × All P xs

All-elem {ℓ} :
    {A : Type ℓ} (P : A → Type 0) (xs : List A) (i : ℕ) (x : A)
    → All P xs
    → get_elem? xs i ≡ some x
    → P x
All-elem P [] i x h e = absurd (cc)
All-elem P (y ∷ ys) zero x h e = subst P (some-injective _ _ e) h.0
All-elem P (y ∷ ys) (suc i) x h e = All-elem P ys i x h.1 e

All-append {ℓ} :
    {A : Type ℓ} (P : A → Type 0) (xs ys : List A) → All P xs → All P ys → All P (xs ++ ys)
All-append P [] ys h g = g
All-append P (x ∷ xs) ys h g = (h.0, All-append P xs ys h.1 g)

All-take {ℓ} : {A : Type ℓ} (P : A → Type 0) (n : ℕ) (xs : List A) → All P xs → All P (take n xs)
All-take P zero xs h = tt
All-take P (suc n) [] h = tt
All-take P (suc n) (x ∷ xs) h = (h.0, All-take P n xs h.1)

All-drop {ℓ} : {A : Type ℓ} (P : A → Type 0) (n : ℕ) (xs : List A) → All P xs → All P (drop n xs)
All-drop P zero xs h = h
All-drop P (suc n) [] h = tt
All-drop P (suc n) (x ∷ xs) h = All-drop P n xs h.1

All-remove_device :
    (P : VolumeInfo → Type 0) (left i d : ℕ) (items : List VolumeInfo)
    → All P items
    → All P (remove_device left i d items)
unfolding remove_device
All-remove_device P zero i d items h = h
All-remove_device P (suc left) i d items h = elim (Option-cases (get_elem? items i)) [
  | inl end ↦ rw (remove_device, end) h
  | inr (v, e) ↦ elim (Bool-cases (v.device == d)) [
    | inl here_ ↦
        rw (remove_device, e, here_)
          (All-remove_device P left (i + 1) d (remove_at i items) (
            All-append P (take i items) (drop (i + 1) items) (All-take P i items h)
              (All-drop P (i + 1) items h)))
    | inr away ↦ rw (remove_device, e, away) (All-remove_device P left (i + 1) d items h)
  ]
]

-- `Q` is known of the device of a volume, if it is one to clean.
abbrev pub Knows : (ℕ → Type 0) → VolumeInfo → Type 0
Knows Q v = (is_writable v ≡ false) ⊎ Q v.device

-- The same of a volume that a message brings.
abbrev pub KnowsMounted : (ℕ → Type 0) → WindowMessage → Type 0
KnowsMounted Q (device_mounted (some v)) = Knows Q v
KnowsMounted Q _ = Unit {0}

-- Every item is to clean, and `Q` holds of its device and of those that were chosen.
abbrev pub IsKnown : (ℕ → Type 0) → SelectWindow → Type 0
IsKnown Q w = All (λ v. (is_writable v ≡ true) × Q v.device) w.items × All Q w.to_cleanup

-- A list has the volume at some position.
abbrev pub Lists : List VolumeInfo → VolumeInfo → Type 0
Lists items v = (i : ℕ) × (get_elem? items i ≡ some v)

All-mono :
    (P R : VolumeInfo → Type 0) (vs : List VolumeInfo)
    → ((v : VolumeInfo) → P v → R v)
    → All P vs
    → All R vs
All-mono P R [] f h = tt
All-mono P R (v ∷ vs) f (p, h) = (f v p, All-mono P R vs f h)

list_volumes-All :
    (vs : List VolumeInfo) → All (λ v. (is_writable v ≡ false) ⊎ Lists (list_volumes vs) v) vs
unfolding list_volumes
list_volumes-All [] = tt
list_volumes-All (v ∷ vs) = elim (Bool-cases (is_writable v)) [
  | inr bad ↦
      let same_ : list_volumes (v ∷ vs) ≡ list_volumes vs = rw (list_volumes, bad) refl in
      subst (λ l. All (λ u. (is_writable u ≡ false) ⊎ Lists l u) (v ∷ vs)) (sym same_)
        (inl bad, list_volumes-All vs)
  | inl good ↦
      let more : list_volumes (v ∷ vs) ≡ v ∷ list_volumes vs = rw (list_volumes, good) refl in
      subst (λ l. All (λ u. (is_writable u ≡ false) ⊎ Lists l u) (v ∷ vs)) (sym more)
        (
          inr (0, refl),
          All-mono _ _ vs (λ u h. elim h [ inl no_ ↦ inl no_ | inr (i, at) ↦ inr (suc i, at) ])
              (list_volumes-All vs),
        )
]

list_volumes-only : (vs : List VolumeInfo) → All (λ v. is_writable v ≡ true) (list_volumes vs)
unfolding list_volumes
list_volumes-only [] = tt
list_volumes-only (v ∷ vs) = elim (Bool-cases (is_writable v)) [
  | inr bad ↦ rw (list_volumes, bad) (list_volumes-only vs)
  | inl good ↦ rw (list_volumes, good) (good, list_volumes-only vs)
]

module _ (Q : ℕ → Type 0) where
  list_volumes-known :
      (vs : List VolumeInfo)
      → All (Knows Q) vs
      → All (λ v. (is_writable v ≡ true) × Q v.device) (list_volumes vs)
  unfolding list_volumes
  list_volumes-known [] h = tt
  list_volumes-known (v ∷ vs) (inl bad, rest) = rw (list_volumes, bad) (list_volumes-known vs rest)
  list_volumes-known (v ∷ vs) (inr q, rest) = elim (Bool-cases (is_writable v)) [
    | inl good ↦ rw (list_volumes, good) ((good, q), list_volumes-known vs rest)
    | inr bad ↦ rw (list_volumes, bad) (list_volumes-known vs rest)
  ]

  fill_to_cleanup-known :
      (is : List ℕ) (items : List VolumeInfo)
      → All (λ v. (is_writable v ≡ true) × Q v.device) items
      → All Q (fill_to_cleanup is items)
  unfolding fill_to_cleanup
  fill_to_cleanup-known [] items h = tt
  fill_to_cleanup-known (i ∷ is) items h = elim (Option-cases (get_elem? items i)) [
    | inl none_ ↦ rw (fill_to_cleanup, none_) tt
    | inr (v, e) ↦
        rw (fill_to_cleanup, e)
          (
            (All-elem (λ v. (is_writable v ≡ true) × Q v.device) items i v h e).1,
            fill_to_cleanup-known is items h,
          )
  ]

  window_received-IsKnown :
      (m : WindowMessage) (w : SelectWindow)
      → IsKnown Q w
      → KnowsMounted Q m
      → IsKnown Q (window_received m w)
  unfolding window_received
  window_received-IsKnown (device_mounted none) w h q = h
  window_received-IsKnown (device_mounted (some v)) w h q =
      elim (Bool-cases (v.init_ok && is_writable v)) [
        | inr bad ↦ rw bad h
        | inl good ↦
            let fine : is_writable v ≡ true = ground arith in
            let known_ : Q v.device = elim q [ inl bad ↦ absurd (cc) | inr x ↦ x ] in
            rw good (
              All-append (λ u. (is_writable u ≡ true) × Q u.device) w.items (v ∷ []) h.0
                  ((fine, known_), tt),
              h.1,
            )
      ]
  window_received-IsKnown (device_unmounted none) w h q = h
  window_received-IsKnown (device_unmounted (some d)) w h q = (
    All-remove_device (λ u. (is_writable u ≡ true) × Q u.device) (length w.items) 0 d w.items h.0,
    h.1,
  )
  window_received-IsKnown (cleanup_selection []) w h q = (h.0, tt)
  window_received-IsKnown (cleanup_selection (i ∷ is)) w h q =
      (h.0, fill_to_cleanup-known (i ∷ is) w.items h.0)
  window_received-IsKnown cancel_operation w h q = h
  window_received-IsKnown another_message w h q = h

  receive_all-IsKnown :
      (ms : List WindowMessage) (w : SelectWindow)
      → IsKnown Q w
      → All (KnowsMounted Q) ms
      → IsKnown Q (receive_all ms w)
  unfolding receive_all
  receive_all-IsKnown [] w h q = h
  receive_all-IsKnown (m ∷ ms) w h q =
      either w.closed w (receive_all ms (window_received m w)) h
        (receive_all-IsKnown ms (window_received m w) (window_received-IsKnown m w h q.0) q.1)
    where
      either : (c : Bool) (u v : SelectWindow) → IsKnown Q u → IsKnown Q v → IsKnown Q (cond c u v)
      either true u v h g = h
      either false u v h g = g

  known :
      (vs : List VolumeInfo) (ms : List WindowMessage)
      → All (Knows Q) vs
      → All (KnowsMounted Q) ms
      → IsKnown Q (receive_all ms (new_window vs))
  known vs ms h q = receive_all-IsKnown ms (new_window vs) (list_volumes-known vs h, tt) q

  -- The volumes of the roster that are persistent, not removable and not read-only, and no others, are
  -- listed at the start. What holds of the devices of all volumes of the roster and of all that are
  -- mounted later, if those are persistent, not removable and not read-only, holds of every device that
  -- the window gives to the cleanup, whatever is selected.
  pub window-IsKnown :
      (vs : List VolumeInfo) (ms : List WindowMessage)
      → All (Knows Q) vs
      → All (KnowsMounted Q) ms
      → IsKnown Q (receive_all ms (new_window vs))
        × All (λ v. (is_writable v ≡ false) ⊎ Lists (new_window vs).items v) vs
        × All (λ v. is_writable v ≡ true) (new_window vs).items
  window-IsKnown vs ms h q = (known vs ms h q, list_volumes-All vs, list_volumes-only vs)
