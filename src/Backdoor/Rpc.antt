-- ===== src/Backdoor/Rpc.antt =====
-- shared_sources/VMWCoreBackdoor.cpp: messages over the RPC channel (SendMessage, SendAndGet,
-- GetMessage), the constructor and the destructor. A buffer is the list of its bytes, and an access
-- outside it is a fault. What a function writes through a pointer is in its result.
pub mod Locking
pub mod Safety
pub mod Balance
use vmware_addons.Base.{
  ℕ, Bool, true, false, not, Option, none, some, Bytes, ◌==◌, leb, ltb, ◌&&◌, cond, length, get_or,
  replicate, ◌+◌, [], ◌∷◌, ◌++◌,
}
use vmware_addons.Machine.{
  if◌then◌else◌, Env, M, Status, ok, error, not_allowed, buffer_overflow, sem_deleted, pure, emit,
  load, store, acquire_sem, create_sem, release_sem, malloc, free, ◌>>=◌, ◌>>◌, is_ok,
}
use vmware_addons.Backdoor.{
  CoreBackdoor, backdoor_call, backdoor_rpc_call, backdoor_rpc_send, backdoor_rpc_get,
  rpc_send_length, rpc_get_length, rpc_ack, rpc_ok, rpc_send_l_ok, rpc_get_l_ok, high_bits,
  back_get_version, back_magic,
}

-- What SendAndGet returns, with its buffer and `*length` afterwards.
pub record Reply : Type 0 where
  pub status : Status
  pub buffer : Bytes
  pub size : ℕ

abbrev pub with_status : Status → Bytes → ℕ → Reply
with_status s buffer n = record { status = s; buffer = buffer; size = n }

module _ (e : Env) (b : CoreBackdoor) where
  -- The command's length, then its bytes, as SendMessage and SendAndGet send them: whether the host
  -- took both.
  unfoldable pub send_command : Bytes → ℕ → M Bool
  unfolding backdoor_rpc_call backdoor_rpc_send
  send_command message n = do
    regs ← backdoor_rpc_call e b rpc_send_length n
    if not (regs.ecx == rpc_send_l_ok)
        then pure false
        else if ltb 0 n
        then (do answer ← backdoor_rpc_send e b message n; pure (answer.eax == rpc_ok))
        else pure true

  -- `err:`
  abbrev failed : Bytes → ℕ → M Reply
  failed buffer n = do release_sem b.backdoor_access; pure (with_status error buffer n)

  -- SendAndGet from the terminator on.
  unfoldable pub confirm : Bytes → ℕ → ℕ → M Reply
  unfolding backdoor_rpc_call
  confirm filled n reply_id = do
    ended ← store filled n (0 ∷ [])
    regs ← backdoor_rpc_call e b rpc_ack reply_id
    if not (regs.ecx == rpc_ok) then failed ended n else do
      release_sem b.backdoor_access
      pure (with_status (cond (ltb 0 n && get_or ended 0 0 == b'1') ok error) ended n)

  -- SendAndGet from the reply's data on.
  unfoldable pub receive_data : Bytes → ℕ → ℕ → M Reply
  unfolding backdoor_rpc_get
  receive_data buffer n reply_id = do
    (got, filled) ← backdoor_rpc_get e b buffer n
    if not (got.eax == rpc_ok) then failed filled n else confirm filled n reply_id

  -- SendAndGet from the reply's length on.
  unfoldable pub receive_reply : Bytes → ℕ → ℕ → M Reply
  unfolding backdoor_rpc_call
  receive_reply buffer n buffer_length = do
    regs ← backdoor_rpc_call e b rpc_get_length 0
    if not (regs.ecx == rpc_get_l_ok)
        then failed buffer n
        else if ltb buffer_length regs.eax
        then (do release_sem b.backdoor_access; pure (with_status buffer_overflow buffer regs.eax))
        else receive_data buffer regs.eax (high_bits regs.edx)

  -- VMWCoreBackdoor::SendAndGet
  unfoldable pub send_and_get : Bytes → ℕ → ℕ → M Reply
  send_and_get buffer n buffer_length =
      if not b.in_vmware then pure (with_status not_allowed buffer n) else do
        acquired ← acquire_sem e b.backdoor_access
        if not (is_ok acquired) then pure (with_status error buffer n) else do
          taken ← send_command buffer n
          if not taken then failed buffer n else receive_reply buffer n buffer_length

  -- GetMessage from the reply's data on. `malloc` may fail, which the code does not check; no memory
  -- is the empty block.
  unfoldable pub get_message_data : ℕ → ℕ → M (Option Bytes)
  unfolding backdoor_rpc_call backdoor_rpc_get
  get_message_data n reply_id = do
    allocated ← malloc e (n + 1)
    (got, filled) ← backdoor_rpc_get e b (cond allocated (replicate (n + 1) 0) []) n
    if not (got.eax == rpc_ok)
        then (do release_sem b.backdoor_access; if allocated then free else pure tt; pure none)
        else do
          regs ← backdoor_rpc_call e b rpc_ack reply_id
          release_sem b.backdoor_access
          if not (regs.ecx == rpc_ok)
              then (do if allocated then free else pure tt; pure none)
              else do ended ← store filled n (0 ∷ []); pure (some ended)

  -- VMWCoreBackdoor::GetMessage: the message with its terminator, and what `*_length` receives.
  unfoldable pub get_message : M (Option Bytes × Option ℕ)
  unfolding backdoor_rpc_call
  get_message = if not b.in_vmware then pure (none, none) else do
    acquired ← acquire_sem e b.backdoor_access
    if not (is_ok acquired) then pure (none, none) else do
      regs ← backdoor_rpc_call e b rpc_get_length 0
      if not (regs.ecx == rpc_get_l_ok)
          then (do release_sem b.backdoor_access; pure (none, none))
          else do
            message ← get_message_data regs.eax (high_bits regs.edx)
            pure (message, some regs.eax)

  -- SendMessage's `check_status` part. `status = '1' ? B_OK : B_ERROR` assigns B_OK to `status` and
  -- returns it, whatever the response says.
  unfoldable pub check_response : M Status
  check_response = do
    (response, _) ← get_message
    elim response [ none ↦ pure error | some bytes ↦ do load bytes 0 1; free; pure ok ]

  -- `strlen(message)` where no length is given; the string ends with a 0 in memory.
  abbrev pub message_length : Option Bytes → ℕ → ℕ
  message_length none n = 0
  message_length (some text) n = cond (leb n 0) (length text) n

  abbrev pub message_memory : Option Bytes → Bytes
  message_memory none = []
  message_memory (some text) = text ++ (0 ∷ [])

  -- SendMessage from `release_sem` on.
  unfoldable pub finish_send : Bool → Bool → M Status
  finish_send check_status taken = do
    release_sem b.backdoor_access
    if not taken then pure error else if check_status then check_response else pure ok

  -- VMWCoreBackdoor::SendMessage
  unfoldable pub send_message : Option Bytes → Bool → ℕ → M Status
  send_message message check_status n = if not b.in_vmware then pure not_allowed else do
    acquired ← acquire_sem e b.backdoor_access
    if not (is_ok acquired) then pure error else do
      taken ← send_command (message_memory message) (message_length message n)
      finish_send check_status taken

-- VMWCoreBackdoor::VMWCoreBackdoor, on the object's memory as it was. The signal handler jumps back
-- to the `sigsetjmp`.
unfoldable pub construct : Env → CoreBackdoor → M CoreBackdoor
unfolding backdoor_call
construct e raw =
    if e.port_crashes then pure (record raw { rpc_opened = false; in_vmware = false }) else do
      regs ←
          backdoor_call e (record { eax = 0; ecx = 0; edx = 0; esi = 0; edi = 0 }) back_get_version
            0
      if not (regs.esi == back_magic)
          then pure (record raw { rpc_opened = false; in_vmware = false })
          else do
            sem ← create_sem e
            pure (record raw { rpc_opened = false; in_vmware = true; backdoor_access = sem.1 })

-- VMWCoreBackdoor::~VMWCoreBackdoor
unfoldable pub destroy : CoreBackdoor → M (Unit {0})
destroy b = emit (sem_deleted b.backdoor_access)
