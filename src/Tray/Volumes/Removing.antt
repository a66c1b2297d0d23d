-- ===== src/Tray/Volumes/Removing.antt =====
-- How the list of vmware_tray/VMWAddOnsSelectWindow.cpp loses the volumes of a device that was unmounted.
use vmware_addons.Base.{
  ℕ, zero, suc, ◌+◌, ◌≤◌, ◌≡◌, refl, inl, inr, sym, ap, ◌∙◌, false, Bool-cases, Option-cases, some,
  List, [], ◌∷◌, ◌++◌, ◌==◌, cond, length, length-append, get_elem?, get_elem?-append_length,
  append-nil, append_assoc, take-append_length, drop-append_add, arith,
}
use vmware_addons.Tray.Volumes.{
  SelectWindow, VolumeInfo, device_unmounted, remove_at, remove_device, window_received,
}

-- How many items are of a device.
abbrev pub count_device : ℕ → List VolumeInfo → ℕ
count_device d [] = 0
count_device d (v ∷ vs) = cond (v.device == d) 1 0 + count_device d vs

-- The items of other devices, in their order.
abbrev pub others : ℕ → List VolumeInfo → List VolumeInfo
others d [] = []
others d (v ∷ vs) = cond (v.device == d) (others d vs) (v ∷ others d vs)

count_device-elem :
    (d i : ℕ) (items : List VolumeInfo) (v : VolumeInfo)
    → get_elem? items i ≡ some v
    → count_device d items ≡ 0
    → (v.device == d) ≡ false
count_device-elem d i [] v e h = cc
count_device-elem d zero (x ∷ xs) v e h = ground arith
count_device-elem d (suc i) (x ∷ xs) v e h = count_device-elem d i xs v e (omega arith)

others-none : (d : ℕ) (items : List VolumeInfo) → count_device d items ≡ 0 → others d items ≡ items
others-none d [] h = refl
others-none d (x ∷ xs) h = ground (arith, others-none d xs)

remove_device-none :
    (left i d : ℕ) (items : List VolumeInfo)
    → count_device d items ≡ 0
    → remove_device left i d items ≡ items
unfolding remove_device
remove_device-none zero i d items h = refl
remove_device-none (suc left) i d items h = elim (Option-cases (get_elem? items i)) [
  | inl end ↦ rw (remove_device, end) refl
  | inr (v, e) ↦
      rw (remove_device, e, count_device-elem d i items v e h)
        (remove_device-none left (i + 1) d items h)
]

count_device-append :
    (d : ℕ) (xs ys : List VolumeInfo)
    → count_device d (xs ++ ys) ≡ count_device d xs + count_device d ys
count_device-append d [] ys = omega arith
count_device-append d (x ∷ xs) ys = omega (arith, count_device-append d xs ys)

remove_at-append :
    (pre xs : List VolumeInfo) (v : VolumeInfo)
    → remove_at (length pre) (pre ++ (v ∷ xs)) ≡ pre ++ xs
remove_at-append pre xs v =
    rw (take-append_length pre (v ∷ xs), drop-append_add pre (v ∷ xs) 1) refl

remove_device-append :
    (left d : ℕ) (pre xs : List VolumeInfo)
    → count_device d pre ≡ 0
    → count_device d xs ≤ 1
    → length xs ≤ left
    → remove_device left (length pre) d (pre ++ xs) ≡ pre ++ others d xs
unfolding remove_device
remove_device-append left d pre [] h once enough =
    remove_device-none left (length pre) d (pre ++ []) (rw (append-nil pre) h)
remove_device-append zero d pre (x ∷ xs) h once enough = absurd (omega arith)
remove_device-append (suc left) d pre (x ∷ xs) h once enough =
    let e = get_elem?-append_length pre x xs in
    elim (Bool-cases (x.device == d)) [
      | inl here_ ↦
          let none_ : count_device d xs ≡ 0 = ground arith in
          rw (remove_device, e, here_)
            (ap (remove_device left (length pre + 1) d) (remove_at-append pre xs x)
              ∙ remove_device-none left (length pre + 1) d (pre ++ xs)
                  (omega (arith, count_device-append d pre xs))
              ∙ sym (ap (λ z. pre ++ z) (others-none d xs none_)))
      | inr away ↦
          let len : length pre + 1 ≡ length (pre ++ (x ∷ [])) =
            omega (arith, length-append pre (x ∷ [])) in
          let rest =
            remove_device-append left d (pre ++ (x ∷ [])) xs
              (let c = count_device-append d pre (x ∷ []) in ground arith) (ground arith)
              (omega arith) in
          rw (remove_device, e, away, len)
            (rw (append_assoc pre (x ∷ []) xs, append_assoc pre (x ∷ []) (others d xs)) at rest)
    ]

-- Where at most one item is of a device, the message that it was unmounted leaves just the items of other
-- devices, in their order, and what was chosen.
pub device_unmounted-others :
    (w : SelectWindow) (d : ℕ)
    → count_device d w.items ≤ 1
    → ((window_received (device_unmounted (some d)) w).items ≡ others d w.items)
      × ((window_received (device_unmounted (some d)) w).to_cleanup ≡ w.to_cleanup)
unfolding window_received
device_unmounted-others w d once =
    (remove_device-append (length w.items) d [] w.items refl once (omega arith), refl)
