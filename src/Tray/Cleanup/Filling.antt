-- ===== src/Tray/Cleanup/Filling.antt =====
-- WriteToFile of vmware_tray/VMWAddOnsCleanup.cpp: what it writes and reports.
use vmware_addons.Base.{
  ℕ, zero, suc, ◌+◌, ◌-◌, ◌*◌, ◌<◌, ◌≤◌, ◌≡◌, ◌⊎◌, inl, inr, refl, true, false, Bool-cases, Option,
  none, some, [], ◌∷◌, ltb, leb, cond, arith,
}
use vmware_addons.Machine.{Status, ok, interrupted, is_ok}
use vmware_addons.Tray.Cleanup.{
  Deeds, Volume, buf_size, count_mbs, entry_gone, entry_kept, file_created, file_deleted, file_new,
  synced, updated, write_rounds, write_to_file, wrote,
}

-- The bytes that were written.
abbrev pub bytes_of : Deeds → ℕ
bytes_of [] = 0
bytes_of (wrote n ∷ h) = n + bytes_of h
bytes_of (_ ∷ h) = bytes_of h

-- The updates that were posted to the status window.
abbrev pub updates : Deeds → ℕ
updates [] = 0
updates (updated ∷ h) = suc (updates h)
updates (_ ∷ h) = updates h

abbrev pub news : Deeds → ℕ
news [] = 0
news (file_new ∷ h) = suc (news h)
news (_ ∷ h) = news h

abbrev pub creations : Deeds → ℕ
creations [] = 0
creations (file_created ∷ h) = suc (creations h)
creations (_ ∷ h) = creations h

-- How often the removal of an entry was tried; FindEntry or Remove may have failed.
abbrev pub removals : Deeds → ℕ
removals [] = 0
removals (entry_gone ∷ h) = suc (removals h)
removals (entry_kept ∷ h) = suc (removals h)
removals (_ ∷ h) = removals h

abbrev pub deletions : Deeds → ℕ
deletions [] = 0
deletions (file_deleted ∷ h) = suc (deletions h)
deletions (_ ∷ h) = deletions h

-- BFile::Write takes at most the bytes that it is given, or returns an error.
abbrev pub IsVolume : Volume → Type 0
IsVolume v =
    ((h : Deeds) (n : ℕ) → v.write_answer h ≡ inr n → n ≤ buf_size)
    × ((h : Deeds) (s : Status) → v.write_answer h ≡ inl s → is_ok s ≡ false)

-- A property of what a loop on fuel ends with, which it does.
abbrev pub Ends {ℓ} : {A : Type ℓ} → (A → Type 0) → Option A → Type 0
Ends P none = ⊥
Ends P (some a) = P a

-- No object was made or deleted, no file created and no removal of an entry tried.
abbrev pub SameFiles : Deeds → Deeds → Type 0
SameFiles h h' =
    (news h' ≡ news h)
    × (creations h' ≡ creations h)
    × (removals h' ≡ removals h)
    × (deletions h' ≡ deletions h)

-- What WriteToFile has done since `h` where it has written `size` full MBs and `progress` bytes.
abbrev pub Tallied : Deeds → ℕ → ℕ → Deeds → Type 0
Tallied h size progress h' =
    (updates h' ≡ updates h + size)
    × (bytes_of h' ≡ bytes_of h + (size * 1048576 + progress))
    × (progress < 1048576)
    × SameFiles h h'

-- What WriteToFile has to do.
abbrev pub Written : Deeds → Status × Deeds → Type 0
Written h (status, h') =
    (n : ℕ) × (rest : ℕ) × Tallied h n rest h' × (n ≤ 4096) × (is_ok status ≡ true → n ≡ 4096)

⊎-cases {ℓ κ} :
    {A : Type ℓ} {B : Type κ} (x : A ⊎ B) → ((a : A) × (x ≡ inl a)) ⊎ ((b : B) × (x ≡ inr b))
⊎-cases (inl a) = inl (a, refl)
⊎-cases (inr b) = inr (b, refl)

-- Of less than two MBs, the loop counts one MB or none.
count_mbs-one :
    (n size progress : ℕ) (h : Deeds)
    → progress < 2097152
    → ((progress < 1048576) × (count_mbs (suc (suc n)) size progress h ≡ some (size, progress, h)))
      ⊎ ((1048576 ≤ progress)
          × (count_mbs (suc (suc n)) size progress h
              ≡ some (size + 1, progress - 1048576, updated ∷ synced ∷ h)))
unfolding count_mbs
count_mbs-one n size progress h few = elim (Bool-cases (leb 1048576 progress)) [
  | inr less ↦ inl (ground arith, rw less refl)
  | inl full ↦
      let over : leb 1048576 (progress - 1048576) ≡ false = ground arith in
      inr (ground arith, rw (full, over) refl)
]

module _ (v : Volume) (good : IsVolume v) where
  -- The end of a round, by whether the user has cancelled and the file is full.
  round-end :
      (size progress : ℕ) (h h' : Deeds) (rest : Option (Status × Deeds))
      → Tallied h size progress h'
      → size ≤ 4096
      → (size < 4096 → Ends (Written h) rest)
      → Ends (Written h) (
          cond
            (v.cancelled h')
            (some (interrupted, h'))
            (cond (ltb size 4096) rest (some (ok, h'))))
  round-end size progress h h' rest tally most later = elim (Bool-cases (v.cancelled h')) [
    | inl stopped ↦ rw stopped (size, progress, tally, most, λ e. ground arith)
    | inr on ↦ elim (Bool-cases (ltb size 4096)) [
      | inl less ↦ rw (on, less) (later (ground arith))
      | inr full ↦ rw (on, full) (size, progress, tally, most, λ e. ground arith)
    ]
  ]

  write_rounds-Written :
      (k size progress q : ℕ) (h h' : Deeds)
      → Tallied h size progress h'
      → progress ≡ q * 524288
      → size < 4096
      → 4294967296 ≤ size * 1048576 + progress + k * 524288
      → Ends (Written h) (write_rounds v k size progress h')
  unfolding write_rounds
  write_rounds-Written zero size progress q h h' (up, all, part, same) halves small enough =
      omega arith
  write_rounds-Written (suc k) size progress q h h' (up, all, part, same) halves small enough =
      elim (⊎-cases (v.write_answer h')) [
        | inl (s, bad) ↦
            let failed : is_ok s ≡ false = good.1 h' s bad in
            rw (write_rounds, bad)
              (size, progress, (up, all, part, same), omega arith, λ e. ground arith)
        | inr (n, some_) ↦
            let most : n ≤ 524288 = good.0 h' n some_ in
            elim (Bool-cases (ltb n 524288)) [
              | inl short ↦
                  let few : n < 524288 = ground arith in
                  rw (write_rounds, some_, short)
                    (
                      size,
                      progress + n,
                      (up, omega arith, omega arith, same),
                      omega arith,
                      λ e. ground arith,
                    )
              | inr full ↦
                  let all_ : n ≡ 524288 = ground arith in
                  elim (count_mbs-one n size (progress + n) (wrote n ∷ h') (omega arith)) [
                    | inl (less, eq) ↦
                        let tally : Tallied h size (progress + n) (wrote n ∷ h') =
                          (up, omega arith, less, same) in
                        rw (write_rounds, some_, full, eq)
                          (round-end size (progress + n) h (wrote n ∷ h') _ tally (omega arith)
                            (λ s.
                              write_rounds-Written k size (progress + n) (q + 1) h (wrote n ∷ h')
                                tally (omega arith) s (omega arith)))
                    | inr (more, eq) ↦
                        let h'' : Deeds = updated ∷ synced ∷ wrote n ∷ h' in
                        let left : ℕ = progress + n - 1048576 in
                        let tally : Tallied h (size + 1) left h'' =
                          (omega arith, omega arith, omega arith, same) in
                        rw (write_rounds, some_, full, eq)
                          (round-end (size + 1) left h h'' _ tally (omega arith) (λ s.
                            write_rounds-Written k (size + 1) left 0 h h'' tally (omega arith) s
                              (omega arith)))
                  ]
            ]
      ]

  -- If a write takes at most what it is given or returns an error, WriteToFile ends: it has posted one update
  -- for each full MB of the bytes written, at most 4096, and with B_OK just 4096.
  pub write_to_file-Written : (h : Deeds) → Ends (Written h) (write_to_file v h)
  unfolding write_to_file
  write_to_file-Written h =
      write_rounds-Written 8192 0 0 0 h h
        (omega arith, omega arith, omega arith, (refl, refl, refl, refl)) refl (omega arith)
        (omega arith)
