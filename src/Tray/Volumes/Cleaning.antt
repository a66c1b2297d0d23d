-- ===== src/Tray/Volumes/Cleaning.antt =====
-- ThreadLoop and Start of vmware_tray/VMWAddOnsCleanup.cpp: what is left on the volumes, and when the disks are
-- shrunk.
use vmware_addons.Base.{
  ℕ, ◌+◌, ◌≡◌, ◌⊎◌, inl, inr, refl, Bool, true, false, not, ◌&&◌, Bool-cases, List, [], ◌∷◌, arith,
}
use vmware_addons.Machine.{
  Env, M, Trace, Outcome, done, fault, panic, Status, ok, interrupted, pure, ◌>>=◌,
}
use vmware_addons.Machine.Laws.{Ensures}
use vmware_addons.Backdoor.{CoreBackdoor}
use vmware_addons.Sharing.Filter.{is_interrupted}
use vmware_addons.Tray.Cleanup.{Deeds, Volume, fill_directory}
use vmware_addons.Tray.Cleanup.Filling.{Ends, IsVolume, creations, deletions, removals}
use vmware_addons.Tray.Cleanup.Emptying.{Emptied, Ends-some, fill_directory-Emptied}
use vmware_addons.Tray.Volumes.{
  Choice, VolumeInfo, cancel, clean_all, clean_up, is_writable, shrink_now, start, start_shrink,
}

-- A volume whose result is B_INTERRUPTED is the last.
abbrev pub StopsAtCancel : List (ℕ × Status) → Type 0
StopsAtCancel [] = Unit {0}
StopsAtCancel (r ∷ []) = Unit {0}
StopsAtCancel (r ∷ (q ∷ rs)) = (is_interrupted (r.1) ≡ false) × StopsAtCancel (q ∷ rs)

-- The devices of the results are some of those given, in their order.
abbrev pub Picks : List (ℕ × Status) → List ℕ → Type 0
Picks [] ds = Unit {0}
Picks (r ∷ rs) [] = ⊥
Picks (r ∷ rs) (d ∷ ds) = ((r.0 ≡ d) × Picks rs ds) ⊎ Picks (r ∷ rs) ds

-- What cleaning volumes has to do: for every file that was created the object is deleted, and the removal of the
-- entry tried.
abbrev pub Cleaned : List ℕ → Deeds → List (ℕ × Status) × Deeds → Type 0
Cleaned ds h (rs, h') =
    (n : ℕ) × (creations h' ≡ creations h + n)
    × (removals h' ≡ removals h + n)
    × (deletions h' ≡ deletions h + n)
    × StopsAtCancel rs
    × Picks rs ds

StopsAtCancel-cons :
    (r : ℕ × Status) (rs : List (ℕ × Status))
    → is_interrupted (r.1) ≡ false
    → StopsAtCancel rs
    → StopsAtCancel (r ∷ rs)
StopsAtCancel-cons r [] e h = tt
StopsAtCancel-cons r (q ∷ rs) e h = (e, h)

Picks-skip : (rs : List (ℕ × Status)) (d : ℕ) (ds : List ℕ) → Picks rs ds → Picks rs (d ∷ ds)
Picks-skip [] d ds h = tt
Picks-skip (r ∷ rs) d ds h = inr h

module _ (look : ℕ → Deeds → VolumeInfo) (disk : ℕ → Volume)
    (good : (d : ℕ) → IsVolume (disk d)) where
  -- If a write takes at most what it is given or returns an error, the loop of ThreadLoop ends. Of the volumes
  -- given it has cleaned some, in their order and up to one at which the user has stopped it, and for every
  -- file that it has created it has deleted the object and tried once to remove the entry.
  pub clean_all-Cleaned :
      (ds : List ℕ) (stale : Status) (h : Deeds)
      → Ends (Cleaned ds h) (clean_all look disk ds stale h)
  unfolding clean_all
  clean_all-Cleaned [] stale h = (0, omega arith, omega arith, omega arith, tt, tt)
  clean_all-Cleaned (d ∷ ds) stale h =
      elim (Bool-cases (not ((look d h).init_ok && is_writable (look d h)))) [
        | inl skip ↦
            let ((rs, h'), run, (n, c, r, x, stops, picks)) =
              Ends-some (Cleaned ds h) (clean_all look disk ds stale h)
                (clean_all-Cleaned ds stale h) in
            rw (clean_all, skip, run) (n, c, r, x, stops, Picks-skip rs d ds picks)
        | inr clean ↦
            let ((st, h'), fills, (n, c, r, x, few, news_, full, bytes)) =
              Ends-some (Emptied h) (fill_directory (disk d) stale h)
                (fill_directory-Emptied (disk d) (good d) stale h) in
            elim (Bool-cases (is_interrupted st)) [
              | inl stopped ↦ rw (clean_all, clean, fills, stopped) (n, c, r, x, tt, inl (refl, tt))
              | inr on ↦
                  let ((rs, h''), run, (m, c', r', x', stops, picks)) =
                    Ends-some (Cleaned ds h') (clean_all look disk ds stale h')
                      (clean_all-Cleaned ds stale h') in
                  rw (clean_all, clean, fills, on, run)
                    (
                      n + m,
                      omega arith,
                      omega arith,
                      omega arith,
                      StopsAtCancel-cons (d, st) rs on stops,
                      inl (refl, picks),
                    )
            ]
      ]

-- The user was asked for a shrink and has confirmed it, and has not stopped the cleanup.
abbrev pub wants_shrink : Choice → Bool → Status → Bool
wants_shrink cancel confirm cleaned = false
wants_shrink shrink_now confirm cleaned = confirm
wants_shrink clean_up confirm cleaned = not (is_interrupted cleaned) && confirm

after_shrink :
    (m : M CoreBackdoor) (t : Trace)
    → Ensures {A = Status × Bool × CoreBackdoor}
        (λ r. r.1 ≡ false)
        ((m >>= λ b. pure (ok, false, b)) t)
after_shrink m t = go (m t)
  where
    go :
        (o : Outcome CoreBackdoor)
        → Ensures {A = Status × Bool × CoreBackdoor}
            (λ r. r.1 ≡ false)
            (elim o [ done b u ↦ done (ok, false, b) u | fault ↦ fault | panic ↦ panic ])
    go (done b u) = refl
    go fault = tt
    go panic = tt

-- However Start ends, no cleanup is in progress, and where the user did not want the shrink nothing has reached the
-- host.
start-Ensures :
    (e : Env) (b : CoreBackdoor) (c : Choice) (confirm : Bool) (cleaned : Status) (t : Trace)
    → Ensures (λ r. r.1 ≡ false) (start e b c confirm cleaned t)
      × ((wants_shrink c confirm cleaned ≡ true)
          ⊎ ((s : Status) × (start e b c confirm cleaned t ≡ done (s, false, b) t)))
unfolding start
start-Ensures e b cancel confirm cleaned t = (refl, inr (ok, refl))
start-Ensures e b shrink_now true cleaned t = (after_shrink (start_shrink e b) t, inl refl)
start-Ensures e b shrink_now false cleaned t = (refl, inr (ok, refl))
start-Ensures e b clean_up confirm cleaned t = elim (Bool-cases (is_interrupted cleaned)) [
  | inl stopped ↦ rw (start, stopped) (refl, inr (interrupted, refl))
  | inr on ↦ rw (start, on) (go confirm)
]
  where
    go :
        (c : Bool)
        → Ensures {A = Status × Bool × CoreBackdoor}
            (λ r. r.1 ≡ false)
            (start e b shrink_now c cleaned t)
          × ((c ≡ true)
              ⊎ ((s : Status) × (start e b shrink_now c cleaned t ≡ done (s, false, b) t)))
    go true = (after_shrink (start_shrink e b) t, inl refl)
    go false = (refl, inr (ok, refl))
