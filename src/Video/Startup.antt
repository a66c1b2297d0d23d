-- ===== src/Video/Startup.antt =====
-- vmware_video/accelerant/InitAccelerant.c, and the update thread that FifoInit of Fifo.c starts anew: the
-- globals of one team, and what it has asked of the kernel.
pub mod Threads
use vmware_addons.Base.{
  ℕ, Bool, true, false, not, Option, none, some, List, [], ◌∷◌, ◌==◌, cond, if◌then◌else◌,
}
use vmware_addons.Machine.{Status, ok, error}

-- Descriptors opened, closed, and given a request; areas cloned and deleted; benaphores made; threads spawned
-- and waited for.
pub data Act : Type 0 where
  opened closed requested cloned deleted spawned waited : ℕ → Act
  bens_made : Act

-- Newest first.
abbrev pub Acts : Type 0
Acts = List Act

-- What the kernel answers: whether VMWARE_GET_PRIVATE_DATA succeeds, the number of a new area, descriptor
-- and thread, or an error.
pub record Replies : Type 0 where
  pub has_private : Acts → Bool
  pub clone_area : Acts → Option ℕ
  pub open_device : Acts → Option ℕ
  pub spawn_thread : Acts → Option ℕ

-- GlobalData.c; `none` is a number that no area or thread has.
pub record Globals : Type 0 where
  pub fd : ℕ
  pub shared_area : Option ℕ
  pub is_clone : Bool
  pub update_thread : Option ℕ
  pub thread_die : Bool
  pub acts : Acts

abbrev pub act : Act → Globals → Globals
act a g = record g { acts = a ∷ g.acts }

-- `gUpdateThread = B_ERROR`, and zeros.
abbrev pub new_globals : Globals
new_globals = record {
  fd = 0;
  shared_area = none;
  is_clone = false;
  update_thread = none;
  thread_die = false;
  acts = [];
}

-- `if (gUpdateThread > B_OK) { gUpdateThreadDie = 1; wait_for_thread(gUpdateThread, ...); }`
unfoldable pub stop_update : Globals → Globals
stop_update g = elim g.update_thread [
  | none ↦ g
  | some id ↦ act (waited id) (record g { thread_die = true })
]

-- UninitCommon
unfoldable pub uninit_common : Globals → Globals
uninit_common g = elim g.shared_area [ none ↦ g | some id ↦ act (deleted id) g ]

-- UNINIT_ACCELERANT
unfoldable pub uninit_accelerant : Globals → Globals
unfolding uninit_common stop_update
uninit_accelerant g =
    let freed : Globals = uninit_common g in
    let stopped : Globals =
      if freed.is_clone then act (closed freed.fd) freed else stop_update freed in
    act (requested stopped.fd) stopped

module _ (r : Replies) where
  -- The threads of FifoInit: the old update thread is stopped and a new one started.
  unfoldable pub fifo_init_threads : Globals → Globals
  unfolding stop_update
  fifo_init_threads g =
      let stopped : Globals = stop_update g in
      let ready : Globals = record stopped { thread_die = false } in
      elim (r.spawn_thread ready.acts) [
        | none ↦ record ready { update_thread = none }
        | some id ↦ act (spawned id) (record ready { update_thread = some id })
      ]

  -- InitCommon
  unfoldable pub init_common : ℕ → Globals → Status × Globals
  init_common fd g =
      let asked : Globals = act (requested fd) (record g { fd = fd }) in
      if not (r.has_private asked.acts) then (error, asked) else elim (r.clone_area asked.acts) [
        | none ↦ (error, record asked { shared_area = none })
        | some id ↦ (ok, act (cloned id) (record asked { shared_area = some id }))
      ]

  -- What INIT_ACCELERANT and CLONE_ACCELERANT do after InitCommon.
  abbrev pub with_bens : Status × Globals → Status × Globals
  with_bens (ok, g) = (ok, act bens_made g)
  with_bens (s, g) = (s, g)

  -- INIT_ACCELERANT
  unfoldable pub init_accelerant : ℕ → Globals → Status × Globals
  unfolding init_common
  init_accelerant fd g = with_bens (init_common fd (record g { is_clone = false }))

  -- CLONE_ACCELERANT
  unfoldable pub clone_accelerant : Globals → Status × Globals
  unfolding init_common
  clone_accelerant g = elim (r.open_device g.acts) [
    | none ↦ (error, g)
    | some fd ↦ with_bens (init_common fd (act (opened fd) (record g { is_clone = true })))
  ]
