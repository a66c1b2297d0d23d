-- ===== src/Folders/Mount.antt =====
-- vmware_fs/VMWSharedFolders.cpp: the constructor and the destructor.
use vmware_addons.Base.{ℕ, ◌+◌, true, not, some, replicate, [], ◌∷◌}
use vmware_addons.Machine.{
  Env, M, no_memory, unsupported, is_ok, pure, create_sem, malloc, free, emit, sem_deleted,
  if◌then◌else◌, ◌>>=◌, ◌>>◌,
}
use vmware_addons.Backdoor.{open_rpc_channel, close_rpc_channel}
use vmware_addons.Backdoor.Rpc.{construct, destroy, send_message}
use vmware_addons.Folders.{Folders}

-- Room for the longest header before `maxIOSize` bytes: that of WriteFile.
abbrev pub buffer_size : ℕ → ℕ
buffer_size max_io_size = max_io_size + 6 + 4 + 4 + 1 + 8 + 4

module _ (e : Env) where
  -- The constructor from the allocation of the buffer on. What `malloc` hands out is all 0 here.
  unfoldable pub allocate : Folders → ℕ → M Folders
  allocate f max_io_size = do
    got ← malloc e (buffer_size max_io_size)
    if not got
        then pure (record f { rpc_buffer_size = buffer_size max_io_size; init_check = no_memory })
        else do
          (made, lock) ← create_sem e
          if is_ok made
              then pure (record f {
                rpc_buffer_size = buffer_size max_io_size;
                rpc_buffer = replicate (buffer_size max_io_size) 0;
                lock = lock;
              })
              else do
                free
                pure (record f { rpc_buffer_size = buffer_size max_io_size; init_check = made })

  -- VMWSharedFolders::VMWSharedFolders, on the object's memory as it was.
  unfoldable pub construct_folders : Folders → ℕ → M Folders
  construct_folders raw max_io_size = do
    b ← construct e raw.backdoor
    if not b.in_vmware then pure (record raw { backdoor = b; init_check = unsupported }) else do
      (opened, b') ← open_rpc_channel e b
      if not (is_ok opened) then pure (record raw { backdoor = b'; init_check = opened }) else do
        greeted ← send_message e b' (some (b'f' ∷ b' ' ∷ [])) true 0
        if not (is_ok greeted)
            then pure (record raw { backdoor = b'; init_check = greeted })
            else allocate (record raw { backdoor = b'; init_check = greeted }) max_io_size

  -- VMWSharedFolders::~VMWSharedFolders, and that of its backdoor.
  unfoldable pub destroy_folders : Folders → M (Unit {0})
  destroy_folders f = do
    emit (sem_deleted f.lock)
    free
    (_, b) ← close_rpc_channel e f.backdoor
    destroy b
