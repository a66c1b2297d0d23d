-- ===== src/Video/Startup/Threads.antt =====
-- The update threads of the accelerant, and its descriptors, over any calls of one team.
use vmware_addons.Base.{
  ℕ, suc, ◌+◌, ◌-◌, ◌≡◌, ◌⊎◌, inl, inr, refl, true, false, Bool-cases, Option-cases, none, some,
  List, [], ◌∷◌, ◌==◌, leb, cond, arith, sym, ◌∙◌,
}
use vmware_addons.Machine.{Status, error}
use vmware_addons.Video.Startup.{
  Acts, Globals, Replies, clone_accelerant, closed, fifo_init_threads, init_accelerant, init_common,
  new_globals, opened, requested, spawned, stop_update, uninit_accelerant, uninit_common, waited,
  with_bens,
}

-- All of a number taken out of a list.
abbrev pub without : ℕ → List ℕ → List ℕ
without i [] = []
without i (j ∷ js) = cond (i == j) (without i js) (j ∷ without i js)

-- The threads that run: those spawned that were not waited for since.
abbrev pub alive : Acts → List ℕ
alive [] = []
alive (spawned i ∷ h) = i ∷ alive h
alive (waited i ∷ h) = without i (alive h)
alive (_ ∷ h) = alive h

-- How often a descriptor is open.
abbrev pub open_at : ℕ → Acts → ℕ
open_at fd [] = 0
open_at fd (opened i ∷ h) = cond (fd == i) 1 0 + open_at fd h
open_at fd (closed i ∷ h) = open_at fd h - cond (fd == i) 1 0
open_at fd (_ ∷ h) = open_at fd h

-- How often a descriptor was given a request while it was not open.
abbrev pub stale : ℕ → Acts → ℕ
stale fd [] = 0
stale fd (requested i ∷ h) = cond (fd == i) (cond (open_at fd h == 0) 1 0) 0 + stale fd h
stale fd (_ ∷ h) = stale fd h

-- The calls of the accelerant's hooks that start or stop threads; SET_DISPLAY_MODE calls FifoInit.
pub data Calls (r : Replies) : Globals → Type 0 where
  loaded : Calls r new_globals
  inits : {g : Globals} (fd : ℕ) → Calls r g → Calls r ((init_accelerant r fd g).1)
  clones : {g : Globals} → Calls r g → Calls r ((clone_accelerant r g).1)
  sets_mode : {g : Globals} → Calls r g → Calls r (fifo_init_threads r g)
  uninits : {g : Globals} → Calls r g → Calls r (uninit_accelerant g)

-- At most the update thread runs.
abbrev pub IsSingle : Globals → Type 0
IsSingle g =
    (alive g.acts ≡ []) ⊎ ((id : ℕ) × (g.update_thread ≡ some id) × (alive g.acts ≡ id ∷ []))

stop_update-alive : (g : Globals) → IsSingle g → alive (stop_update g).acts ≡ []
unfolding stop_update
stop_update-alive g (inl none_) = elim (Option-cases g.update_thread) [
  | inl gone ↦ rw (gone, none_) refl
  | inr (id, at) ↦ rw (at, none_) refl
]
stop_update-alive g (inr (id, at, one)) = rw (at, one) (ground arith)

fifo_init_threads-IsSingle :
    (r : Replies) (g : Globals) → IsSingle g → IsSingle (fifo_init_threads r g)
unfolding fifo_init_threads
fifo_init_threads-IsSingle r g h =
    let none_ = stop_update-alive g h in
    elim (Option-cases (r.spawn_thread (stop_update g).acts)) [
      | inl fails ↦ rw (fifo_init_threads, fails) (inl none_)
      | inr (id, spawns) ↦ rw (fifo_init_threads, spawns) (inr (id, refl, rw none_ refl))
    ]

-- The update thread, and what runs, stay.
abbrev pub SameThreads : Globals → Globals → Type 0
SameThreads g g' = (g'.update_thread ≡ g.update_thread) × (alive g'.acts ≡ alive g.acts)

SameThreads-IsSingle : (g g' : Globals) → SameThreads g g' → IsSingle g → IsSingle g'
SameThreads-IsSingle g g' (at, all_) h = rw (at, all_) h

init_common-SameThreads :
    (r : Replies) (fd : ℕ) (g : Globals) → SameThreads g ((init_common r fd g).1)
unfolding init_common
init_common-SameThreads r fd g = ground arith

with_bens-SameThreads :
    (r : Replies) (g : Globals) (x : Status × Globals)
    → SameThreads g (x.1)
    → SameThreads g ((with_bens r x).1)
with_bens-SameThreads r g (s, x) h = ground arith

init_accelerant-SameThreads :
    (r : Replies) (fd : ℕ) (g : Globals) → SameThreads g ((init_accelerant r fd g).1)
unfolding init_accelerant
init_accelerant-SameThreads r fd g =
    with_bens-SameThreads r g (init_common r fd (record g { is_clone = false }))
      (init_common-SameThreads r fd (record g { is_clone = false }))

clone_accelerant-SameThreads :
    (r : Replies) (g : Globals) → SameThreads g ((clone_accelerant r g).1)
unfolding clone_accelerant
clone_accelerant-SameThreads r g = elim (Option-cases (r.open_device g.acts)) [
  | inl fails ↦ rw (clone_accelerant, fails) (refl, refl)
  | inr (fd, opens) ↦
      let g' : Globals = record g { is_clone = true; acts = opened fd ∷ g.acts } in
      rw (clone_accelerant, opens)
        (with_bens-SameThreads r g (init_common r fd g') (init_common-SameThreads r fd g'))
]

uninit_common-SameThreads : (g : Globals) → SameThreads g (uninit_common g)
unfolding uninit_common
uninit_common-SameThreads g = ground arith

uninit_accelerant-IsSingle : (g : Globals) → IsSingle g → IsSingle (uninit_accelerant g)
unfolding uninit_accelerant
uninit_accelerant-IsSingle g h =
    let h' = SameThreads-IsSingle g (uninit_common g) (uninit_common-SameThreads g) h in
    elim (Bool-cases (uninit_common g).is_clone) [
      | inl clone ↦ rw (uninit_accelerant, clone) h'
      | inr first ↦ rw (uninit_accelerant, first) (inl (stop_update-alive (uninit_common g) h'))
    ]

-- After any calls of one team, at most one update thread runs, and it is gUpdateThread.
pub Calls-IsSingle : {r : Replies} {g : Globals} → Calls r g → IsSingle g
Calls-IsSingle loaded = inl refl
Calls-IsSingle {r} (inits {g = g} fd run) =
    SameThreads-IsSingle g ((init_accelerant r fd g).1) (init_accelerant-SameThreads r fd g)
      (Calls-IsSingle run)
Calls-IsSingle {r} (clones {g = g} run) =
    SameThreads-IsSingle g ((clone_accelerant r g).1) (clone_accelerant-SameThreads r g)
      (Calls-IsSingle run)
Calls-IsSingle {r} (sets_mode {g = g} run) = fifo_init_threads-IsSingle r g (Calls-IsSingle run)
Calls-IsSingle (uninits {g = g} run) = uninit_accelerant-IsSingle g (Calls-IsSingle run)

-- The descriptors stay.
abbrev pub SameFiles : Globals → Globals → Type 0
SameFiles g g' =
    (g'.fd ≡ g.fd)
    × (g'.is_clone ≡ g.is_clone)
    × (open_at g.fd g'.acts ≡ open_at g.fd g.acts)
    × (stale g.fd g'.acts ≡ stale g.fd g.acts)

uninit_common-SameFiles : (g : Globals) → SameFiles g (uninit_common g)
unfolding uninit_common
uninit_common-SameFiles g = elim (Option-cases g.shared_area) [
  | inl none_ ↦ rw (uninit_common, none_) (refl, refl, refl, refl)
  | inr (id, some_) ↦ rw (uninit_common, some_) (refl, refl, refl, refl)
]

stale-closed :
    (fd : ℕ) (h : Acts) (n m : ℕ)
    → open_at fd h ≡ n
    → stale fd h ≡ m
    → stale fd (requested fd ∷ closed fd ∷ h) ≡ cond (leb n 1) 1 0 + m
stale-closed fd h n m opens stales = ground arith

-- UNINIT_ACCELERANT of a team that is not a clone ends the update thread. Of a clone it leaves running what runs,
-- and the request at its end goes to the descriptor that it has closed, if that was
-- not open more than once.
pub uninit_accelerant-clone :
    {r : Replies} {g : Globals}
    → Calls r g
    → ((g.is_clone ≡ false) × (alive (uninit_accelerant g).acts ≡ []))
      ⊎ ((g.is_clone ≡ true)
          × (alive (uninit_accelerant g).acts ≡ alive g.acts)
          × (stale g.fd (uninit_accelerant g).acts
              ≡ cond (leb (open_at g.fd g.acts) 1) 1 0 + stale g.fd g.acts))
unfolding uninit_accelerant
uninit_accelerant-clone {r} {g} run =
    let c : Globals = uninit_common g in
    let (at, runs) = uninit_common-SameThreads g in
    let (file, kind, opens, stales) = uninit_common-SameFiles g in
    let h = SameThreads-IsSingle g c (at, runs) (Calls-IsSingle run) in
    elim (Bool-cases c.is_clone) [
      | inr first ↦ inl (sym kind ∙ first, rw (uninit_accelerant, first) (stop_update-alive c h))
      | inl clone ↦ inr (
        sym kind ∙ clone,
        rw (uninit_accelerant, clone) runs,
        rw (uninit_accelerant, clone, file) (stale-closed g.fd c.acts _ _ opens stales),
      )
    ]

-- Where a clone cannot reach the shared data, CLONE_ACCELERANT fails and its descriptor is open once more than
-- before.
clone_accelerant-leaks :
    (r : Replies) (g : Globals) (fd : ℕ)
    → r.open_device g.acts ≡ some fd
    → (r.has_private (requested fd ∷ opened fd ∷ g.acts) ≡ false)
      ⊎ (r.clone_area (requested fd ∷ opened fd ∷ g.acts) ≡ none)
    → ((clone_accelerant r g).0 ≡ error)
      × (open_at fd ((clone_accelerant r g).1).acts ≡ suc (open_at fd g.acts))
unfolding clone_accelerant init_common
clone_accelerant-leaks r g fd opens fails = rw (clone_accelerant, opens) (ground arith)
