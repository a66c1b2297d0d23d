-- ===== src/Folders.antt =====
-- vmware_fs/VMWSharedFolders.{h,cpp}: the client of the host's shared folders. A command is built in
-- `rpc_buffer`, sent and answered over the backdoor's RPC channel, and the answer is read from the
-- same buffer.
pub mod Command
pub mod Safety
pub mod Calls
pub mod Sessions
pub mod Decoding
pub mod Transfers
pub mod Balance
pub mod Locking
pub mod Protocol
pub mod Files
pub mod Dirs
pub mod Entries
pub mod Mount
use vmware_addons.Base.{
  ℕ, zero, suc, ◌+◌, ◌-◌, ◌%◌, ◌^◌, Bool, true, false, not, Option, none, some, Bytes, ◌==◌, ltb,
  cond, length, List, [], ◌∷◌, ◌++◌, map, le_bytes, of_le_bytes, write_at, read_at,
}
use vmware_addons.Machine.{
  Env, M, Status, ok, error, no_memory, buffer_overflow, unsupported, entry_not_found,
  permission_denied, file_exists, directory_not_empty, name_in_use, bad_address, is_ok, pure,
  checked, assert, load, acquire_sem, create_sem, release_sem, malloc, free, emit, sem_deleted,
  user_read, user_write, if◌then◌else◌, ◌>>=◌, ◌>>◌,
}
use vmware_addons.Backdoor.{CoreBackdoor, open_rpc_channel, close_rpc_channel}
use vmware_addons.Backdoor.Rpc.{Reply, construct, destroy, send_message, send_and_get}

-- The fields of VMWSharedFolders.
pub record Folders : Type 0 where
  pub backdoor : CoreBackdoor
  pub init_check : Status
  pub lock : ℕ
  pub rpc_buffer : Bytes
  pub rpc_buffer_size : ℕ

-- vmw_attributes
pub record Attributes : Type 0 where
  pub size : ℕ
  pub cr_time : ℕ
  pub a_time : ℕ
  pub m_time : ℕ
  pub c_time : ℕ
  pub perms : ℕ

-- The bits of `openMode` that OpenFile reads: `& 3`, O_TRUNC, O_CREAT, O_EXCL.
pub record OpenMode : Type 0 where
  pub access : ℕ
  pub trunc : Bool
  pub creat : Bool
  pub excl : Bool

-- One step that puts a part of a command at `pos`: SET_8, SET_32, SET_64, `memcpy`, CopyPath, and the
-- `SET_32(pos, 0); pos -= SIZE_32` of CreateDir.
pub data Piece : Type 0 where
  set_8 set_32 set_64 : ℕ → Piece
  copy : Bytes → Piece
  path : Bytes → Piece
  clear_32 : Piece

abbrev pub wire_char : ℕ → ℕ
wire_char c = cond (c == b'/') 0 c

-- CopyPath
unfoldable pub copy_path : Bytes → ℕ → Bytes → Option (Bytes × ℕ)
copy_path buf pos [] = elim (write_at buf pos (0 ∷ [])) [ none ↦ none | some b ↦ some (b, pos + 1) ]
copy_path buf pos (c ∷ cs) = elim (write_at buf pos (wire_char c ∷ [])) [
  | none ↦ none
  | some b ↦ copy_path b (pos + 1) cs
]

abbrev put_bytes : Bytes → ℕ → Bytes → Option (Bytes × ℕ)
put_bytes buf pos bs = elim (write_at buf pos bs) [
  | none ↦ none
  | some b ↦ some (b, pos + length bs)
]

unfoldable pub put : Bytes → ℕ → Piece → Option (Bytes × ℕ)
put buf pos (set_8 v) = put_bytes buf pos (le_bytes 1 v)
put buf pos (set_32 v) = put_bytes buf pos (le_bytes 4 v)
put buf pos (set_64 v) = put_bytes buf pos (le_bytes 8 v)
put buf pos (copy bs) = put_bytes buf pos bs
put buf pos (path p) = copy_path buf pos p
put buf pos clear_32 = elim (write_at buf pos (le_bytes 4 0)) [
  | none ↦ none
  | some b ↦ some (b, pos)
]

unfoldable pub put_all : Bytes → ℕ → List Piece → Option (Bytes × ℕ)
put_all buf pos [] = some (buf, pos)
put_all buf pos (p ∷ ps) = elim (put buf pos p) [ none ↦ none | some (b, n) ↦ put_all b n ps ]

-- StartCommand
abbrev pub start_bytes : Bytes
start_bytes = b'f' ∷ b' ' ∷ 0 ∷ 0 ∷ 0 ∷ 0 ∷ []

abbrev pub attribute_bytes : Attributes → Bytes
attribute_bytes a =
    le_bytes 8 a.size
    ++ (le_bytes 8 a.cr_time
        ++ (le_bytes 8 a.a_time
            ++ (le_bytes 8 a.m_time ++ (le_bytes 8 a.c_time ++ le_bytes 1 a.perms))))

-- VMW_CMD_*
abbrev pub cmd_open_file : ℕ
cmd_open_file = 0

abbrev pub cmd_read_file : ℕ
cmd_read_file = 1

abbrev pub cmd_write_file : ℕ
cmd_write_file = 2

abbrev pub cmd_close_file : ℕ
cmd_close_file = 3

abbrev pub cmd_open_dir : ℕ
cmd_open_dir = 4

abbrev pub cmd_read_dir : ℕ
cmd_read_dir = 5

abbrev pub cmd_close_dir : ℕ
cmd_close_dir = 6

abbrev pub cmd_get_attr : ℕ
cmd_get_attr = 7

abbrev pub cmd_set_attr : ℕ
cmd_set_attr = 8

abbrev pub cmd_new_dir : ℕ
cmd_new_dir = 9

abbrev pub cmd_del_file : ℕ
cmd_del_file = 10

abbrev pub cmd_del_dir : ℕ
cmd_del_dir = 11

abbrev pub cmd_move_file : ℕ
cmd_move_file = 12

-- ConvertStatus
unfoldable pub convert_status : ℕ → Status
convert_status s = cond (s == 0) ok (
    cond (s == 1) entry_not_found (
      cond (s == 3) permission_denied (
        cond (s == 4) file_exists (
          cond (s == 6) directory_not_empty
            (cond (s == 8) name_in_use (cond (s == 10) ok error))))))

-- The result of a call: its status, what it stored through its pointer, and the object.
pub record Result {ℓ} (A : Type ℓ) : Type ℓ where
  pub status : Status
  pub out : Option A
  pub folders : Folders

module _ (e : Env) where
  -- StartCommand and the pieces: the buffer, and `pos` behind them.
  abbrev pub build : Folders → List Piece → M (Bytes × ℕ)
  build f pieces = checked (put_all f.rpc_buffer 0 (copy start_bytes ∷ pieces))

  -- `ASSERT(pos == length)` and SendAndGet.
  abbrev pub deliver : Folders → Bytes → ℕ → ℕ → M Reply
  deliver f buffer pos n = do
    assert (pos == n)
    send_and_get e f.backdoor buffer n f.rpc_buffer_size

  -- The part that the commands share.
  unfoldable pub exchange : Folders → ℕ → List Piece → M Reply
  exchange f n pieces = do (buffer, pos) ← build f pieces; deliver f buffer pos n

  -- `*(uint32*)(fRPCBuffer + offset)`
  abbrev pub load_32 : Bytes → ℕ → M ℕ
  load_32 buf off = do bs ← load buf off 4; pure (of_le_bytes bs)

-- `release_sem(fLock); return status;`
abbrev pub leave {ℓ} : {A : Type ℓ} → Folders → Bytes → Status → Option A → M (Result A)
leave f buffer s out = do
  release_sem f.lock
  pure (record { status = s; out = out; folders = record f { rpc_buffer = buffer } })

-- The rest of a call whose only answer is a status: a reply of `size` bytes with the host's code at 6.
abbrev pub conclude : Env → Folders → ℕ → Reply → M (Result (Unit {0}))
conclude e f size reply =
    if not (is_ok reply.status)
    then leave f reply.buffer reply.status none
    else if not (reply.size == size)
    then leave f reply.buffer error none
    else do code ← load_32 e reply.buffer 6; leave f reply.buffer (convert_status code) none

-- The same where a handle comes at 10, in a reply of 14 bytes.
abbrev pub conclude_handle : Env → Folders → Reply → M (Result ℕ)
conclude_handle e f reply =
    if not (is_ok reply.status)
    then leave f reply.buffer reply.status none
    else if not (reply.size == 14)
    then leave f reply.buffer error none
    else do
      code ← load_32 e reply.buffer 6
      handle ← load_32 e reply.buffer 10
      leave f reply.buffer (convert_status code) (some handle)

-- `return status;` with the lock not taken.
abbrev pub refuse {ℓ} : {A : Type ℓ} → Folders → Status → M (Result A)
refuse f s = pure (record { status = s; out = none; folders = f })
