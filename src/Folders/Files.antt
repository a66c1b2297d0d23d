-- ===== src/Folders/Files.antt =====
-- vmware_fs/VMWSharedFolders.cpp: OpenFile, ReadFile, WriteFile and CloseFile.
use vmware_addons.Base.{ℕ, ◌+◌, not, none, some, Bytes, ltb, cond, length, List, [], ◌∷◌}
use vmware_addons.Machine.{
  Env, M, ok, error, buffer_overflow, bad_address, is_ok, checked, assert, load, acquire_sem,
  user_read, user_write, if◌then◌else◌, ◌>>=◌, ◌>>◌,
}
use vmware_addons.Backdoor.Rpc.{Reply}
use vmware_addons.Folders.{
  Folders, OpenMode, Piece, set_8, set_32, set_64, copy, path, put, convert_status, Result, build,
  deliver, exchange, load_32, leave, refuse, conclude_handle, cmd_open_file, cmd_read_file,
  cmd_write_file, cmd_close_file,
}

abbrev pub vmw_open_mode : OpenMode → ℕ
vmw_open_mode m = cond m.trunc 4 (cond m.creat (cond m.excl 3 2) 0)

abbrev pub open_file_pieces : Bytes → OpenMode → List Piece
open_file_pieces name m =
    set_32 cmd_open_file
    ∷ set_32 m.access
    ∷ set_32 (vmw_open_mode m)
    ∷ set_8 6
    ∷ set_32 (length name)
    ∷ path name
    ∷ []

abbrev pub read_file_pieces : ℕ → ℕ → ℕ → List Piece
read_file_pieces handle offset n =
    set_32 cmd_read_file ∷ set_32 handle ∷ set_64 offset ∷ set_32 n ∷ []

abbrev pub write_file_pieces : ℕ → ℕ → ℕ → List Piece
write_file_pieces handle offset n =
    set_32 cmd_write_file ∷ set_32 handle ∷ set_8 0 ∷ set_64 offset ∷ set_32 n ∷ []

abbrev pub close_file_pieces : ℕ → List Piece
close_file_pieces handle = set_32 cmd_close_file ∷ set_32 handle ∷ []

module _ (e : Env) where
  -- VMWSharedFolders::OpenFile
  unfoldable pub open_file : Folders → Bytes → OpenMode → M (Result ℕ)
  open_file f name m =
      let n = 6 + 4 + 4 + 4 + 1 + 4 + length name + 1 in
      if ltb f.rpc_buffer_size n then refuse f buffer_overflow else do
        acquired ← acquire_sem e f.lock
        if not (is_ok acquired)
            then refuse f error
            else do reply ← exchange e f n (open_file_pieces name m); conclude_handle e f reply

  -- ReadFile from the host's answer on.
  unfoldable pub read_file_answer : Folders → ℕ → Reply → M (Result ℕ)
  read_file_answer f max_length reply =
      if not (is_ok reply.status)
      then leave f reply.buffer reply.status none
      else if ltb reply.size 14
      then leave f reply.buffer error none
      else do
        code ← load_32 e reply.buffer 6
        if not (is_ok (convert_status code))
            then leave f reply.buffer (convert_status code) none
            else do
              returned ← load_32 e reply.buffer 10
              if ltb max_length returned then leave f reply.buffer buffer_overflow none else do
                bytes ← load reply.buffer 14 returned
                copied ← user_write e bytes returned
                leave f reply.buffer (cond (is_ok copied) ok bad_address) (some returned)

  -- VMWSharedFolders::ReadFile; `out` is what it stores in `*readLength`.
  unfoldable pub read_file : Folders → ℕ → ℕ → ℕ → M (Result ℕ)
  read_file f handle offset read_length =
      let n = 6 + 4 + 4 + 8 + 4 in
      do
        assert (not (ltb f.rpc_buffer_size (read_length + n)))
        if ltb f.rpc_buffer_size (read_length + n) then refuse f buffer_overflow else do
          acquired ← acquire_sem e f.lock
          if not (is_ok acquired) then refuse f error else do
            reply ← exchange e f n (read_file_pieces handle offset read_length)
            read_file_answer f read_length reply

  -- WriteFile from the copy of the caller's bytes on.
  unfoldable pub write_file_data : Folders → Bytes → ℕ → Bytes → ℕ → M (Result ℕ)
  write_file_data f bytes n buffer pos = do
    copied ← user_read e (length bytes)
    if not (is_ok copied) then leave f buffer bad_address none else do
      (full, end) ← checked (put buffer pos (copy bytes))
      reply ← deliver e f full end n
      conclude_handle e f reply

  -- VMWSharedFolders::WriteFile; the caller's memory at `writeBuffer` is `bytes`, of `*writeLength`
  -- bytes, and `out` is what it stores there.
  unfoldable pub write_file : Folders → ℕ → ℕ → Bytes → M (Result ℕ)
  write_file f handle offset bytes =
      let n = 6 + 4 + 4 + 1 + 8 + 4 + length bytes in
      do
        assert (not (ltb f.rpc_buffer_size n))
        if ltb f.rpc_buffer_size n then refuse f buffer_overflow else do
          acquired ← acquire_sem e f.lock
          if not (is_ok acquired) then refuse f error else do
            (buffer, pos) ← build e f (write_file_pieces handle offset (length bytes))
            write_file_data f bytes n buffer pos

  -- VMWSharedFolders::CloseFile
  unfoldable pub close_file : Folders → ℕ → M (Result (Unit {0}))
  close_file f handle = do
    acquired ← acquire_sem e f.lock
    if not (is_ok acquired) then refuse f error else do
      reply ← exchange e f (6 + 4 + 4) (close_file_pieces handle)
      leave f reply.buffer reply.status none
