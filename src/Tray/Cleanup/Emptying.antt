-- ===== src/Tray/Cleanup/Emptying.antt =====
-- FillDirectory of vmware_tray/VMWAddOnsCleanup.cpp: which files it leaves.
use vmware_addons.Base.{
  ℕ, zero, suc, ◌+◌, ◌*◌, ◌≤◌, ◌≡◌, ◌⊎◌, inl, inr, refl, ◌∙◌, true, false, Bool-cases, Option, none,
  some, ◌∷◌, arith,
}
use vmware_addons.Machine.{Status, is_ok}
use vmware_addons.Tray.Cleanup.{
  Deeds, Volume, delete_files, file_created, file_deleted, file_new, fill_directory, make_files,
  unlinked, write_to_file,
}
use vmware_addons.Tray.Cleanup.Filling.{
  Ends, IsVolume, Written, bytes_of, creations, deletions, news, removals, write_to_file-Written,
}

-- The loop of FillDirectory has made `count` files since `h` and filled them.
abbrev pub Made : Deeds → ℕ → Deeds → Type 0
Made h count h' =
    (creations h' ≡ creations h + count)
    × (removals h' ≡ removals h + count)
    × (deletions h' ≡ deletions h)
    × (news h' ≡ news h + count)
    × (bytes_of h + count * 4294967296 ≤ bytes_of h')

-- What the loop of FillDirectory has to do: one object more than files is made where CreateFile fails.
abbrev pub Filled : Deeds → Status × ℕ × Deeds → Type 0
Filled h (status, count, h') =
    (creations h' ≡ creations h + count)
    × (removals h' ≡ removals h + count)
    × (deletions h' ≡ deletions h)
    × (count ≤ 200)
    × ((news h' ≡ news h + count) ⊎ ((news h' ≡ news h + count + 1) × (is_ok status ≡ false)))
    × (is_ok status ≡ true → count ≡ 200)
    × (is_ok status ≡ true → bytes_of h + 858993459200 ≤ bytes_of h')

-- What FillDirectory has to do: delete the files that it has created.
abbrev pub Emptied : Deeds → Status × Deeds → Type 0
Emptied h (status, h') =
    (n : ℕ) × (creations h' ≡ creations h + n)
    × (removals h' ≡ removals h + n)
    × (deletions h' ≡ deletions h + n)
    × (n ≤ 200)
    × ((news h' ≡ news h + n) ⊎ ((news h' ≡ news h + n + 1) × (is_ok status ≡ false)))
    × (is_ok status ≡ true → n ≡ 200)
    × (is_ok status ≡ true → bytes_of h + 858993459200 ≤ bytes_of h')

delete_files-deletions :
    (n : ℕ) (h : Deeds)
    → (deletions (delete_files n h) ≡ deletions h + n)
      × (creations (delete_files n h) ≡ creations h)
      × (removals (delete_files n h) ≡ removals h)
      × (news (delete_files n h) ≡ news h)
      × (bytes_of (delete_files n h) ≡ bytes_of h)
unfolding delete_files
delete_files-deletions zero h = (omega arith, refl, refl, refl, refl)
delete_files-deletions (suc n) h =
    let (del, made, gone, new, bytes) = delete_files-deletions n (file_deleted ∷ h) in
    (omega arith, made, gone, new, bytes)

pub Ends-some {ℓ} :
    {A : Type ℓ} (P : A → Type 0) (o : Option A) → Ends P o → (a : A) × (o ≡ some a) × P a
Ends-some P none h = elim h [ ]
Ends-some P (some a) h = (a, refl, h)

-- Whether or not it fails, the removal of an entry is tried once, and nothing else is done.
unlinked-counts :
    (v : Volume) (h : Deeds)
    → (removals (unlinked v h) ≡ suc (removals h))
      × (creations (unlinked v h) ≡ creations h)
      × (news (unlinked v h) ≡ news h)
      × (deletions (unlinked v h) ≡ deletions h)
      × (bytes_of (unlinked v h) ≡ bytes_of h)
unlinked-counts v h = elim (Bool-cases (v.remove_answer h)) [
  | inl gone ↦ rw gone (refl, refl, refl, refl, refl)
  | inr kept ↦ rw kept (refl, refl, refl, refl, refl)
]

module _ (v : Volume) (good : IsVolume v) where
  make_files-Filled :
      (k : ℕ) (status : Status) (count : ℕ) (h h' : Deeds)
      → Made h count h'
      → count + k ≡ 200
      → Ends (Filled h) (make_files v k status count h')
  unfolding make_files
  make_files-Filled zero status count h h' (made, gone, del, new, bytes) all =
      (made, gone, del, omega arith, inl new, λ e. omega arith, λ e. omega arith)
  make_files-Filled (suc k) status count h h' (made, gone, del, new, bytes) all =
      elim (Bool-cases (is_ok (v.create_answer (file_new ∷ h')))) [
        | inr bad ↦
            rw (make_files, bad)
              (
                made,
                gone,
                del,
                omega arith,
                inr (omega arith, bad),
                λ e. ground arith,
                λ e. ground arith,
              )
        | inl created ↦
            let h0 : Deeds = unlinked v (file_created ∷ file_new ∷ h') in
            let (tried, kept, new0, del0, bytes0) =
              unlinked-counts v (file_created ∷ file_new ∷ h') in
            let (
              (st, h''),
              eq,
              (size, rest, (up, more, part, (new', made', gone', del')), most, full),
            ) =
              Ends-some (Written h0) (write_to_file v h0) (write_to_file-Written v good h0) in
            elim (Bool-cases (is_ok st)) [
              | inr failed ↦
                  rw (make_files, created, eq, failed)
                    (
                      omega arith,
                      omega arith,
                      omega arith,
                      omega arith,
                      inl (omega arith),
                      λ e. ground arith,
                      λ e. ground arith,
                    )
              | inl on ↦
                  let whole : size ≡ 4096 = full on in
                  rw (make_files, created, eq, on)
                    (make_files-Filled k st (count + 1) h h''
                      (omega arith, omega arith, omega arith, omega arith, omega arith)
                      (omega arith))
            ]
      ]

  -- If a write takes at most what it is given or returns an error, FillDirectory ends. It creates at most
  -- 200 files, tries once to remove the entry of each, and deletes the object of each; one object more is
  -- made, and not deleted, only where the result is an error. B_OK means 200 files, and at least 200
  -- times 4096 MB written.
  pub fill_directory-Emptied :
      (stale : Status) (h : Deeds) → Ends (Emptied h) (fill_directory v stale h)
  unfolding fill_directory
  fill_directory-Emptied stale h =
      let ((st, count, h'), eq, (made, gone, del, most, new, all, bytes)) =
        Ends-some (Filled h) (make_files v 200 stale 0 h) (
          make_files-Filled 200 stale 0 h h
            (omega arith, omega arith, refl, omega arith, omega arith) refl) in
      let (del', made', gone', new', bytes') = delete_files-deletions count h' in
      rw (fill_directory, eq)
        (
          count,
          made' ∙ made,
          gone' ∙ gone,
          omega arith,
          most,
          rw new' new,
          all,
          λ e. rw bytes' (bytes e),
        )
