-- ===== src/Folders/Dirs.antt =====
-- vmware_fs/VMWSharedFolders.cpp: OpenDir, ReadDir, CloseDir and CreateDir.
use vmware_addons.Base.{
  ℕ, zero, suc, ◌+◌, ◌-◌, ◌%◌, ◌^◌, true, false, not, Option, none, some, Bytes, ◌==◌, ◌&&◌, cond,
  leb, ltb, length, take, drop, List, [], ◌∷◌,
}
use vmware_addons.Machine.{
  Env, M, ok, error, buffer_overflow, entry_not_found, is_ok, checked, acquire_sem, if◌then◌else◌,
  ◌>>=◌,
}
use vmware_addons.Backdoor.Rpc.{Reply}
use vmware_addons.Folders.{
  Folders, Piece, set_8, set_32, path, clear_32, Result, exchange, load_32, leave, refuse, conclude,
  conclude_handle, cmd_open_dir, cmd_read_dir, cmd_close_dir, cmd_new_dir,
}

abbrev pub open_dir_pieces : Bytes → List Piece
open_dir_pieces name = set_32 cmd_open_dir ∷ set_32 (length name) ∷ path name ∷ []

abbrev pub read_dir_pieces : ℕ → ℕ → List Piece
read_dir_pieces handle index = set_32 cmd_read_dir ∷ set_32 handle ∷ set_32 index ∷ []

abbrev pub close_dir_pieces : ℕ → List Piece
close_dir_pieces handle = set_32 cmd_close_dir ∷ set_32 handle ∷ []

abbrev pub create_dir_pieces : Bytes → ℕ → List Piece
create_dir_pieces name mode =
    set_32 cmd_new_dir ∷ clear_32 ∷ set_8 mode ∷ set_32 (length name) ∷ path name ∷ []

-- The string that `strncpy` reads: up to a 0 or `n` bytes, `none` if it runs out of the memory.
unfoldable pub c_string : Bytes → ℕ → Option Bytes
c_string bs zero = some []
c_string [] (suc n) = none
c_string (c ∷ cs) (suc n) =
    let rest = c_string cs n in
    elim (c == 0) [ true ↦ some [] | false ↦ elim rest [ none ↦ none | some s ↦ some (c ∷ s) ] ]

-- The string at `name` after `strncpy`, which fills up with zeros and so writes all of `room` bytes, and
-- after the 0 at `name[name_length]`; `none` where one of the two leaves the memory there.
unfoldable pub stored_name : ℕ → ℕ → ℕ → Bytes → Option Bytes
stored_name memory room name_length copied =
    cond (leb room memory && ltb name_length memory) (some (take name_length copied)) none

module _ (e : Env) where
  -- VMWSharedFolders::OpenDir
  unfoldable pub open_dir : Folders → Bytes → M (Result ℕ)
  open_dir f name =
      let n = 6 + 4 + 4 + length name + 1 in
      if ltb f.rpc_buffer_size n then refuse f buffer_overflow else do
        acquired ← acquire_sem e f.lock
        if not (is_ok acquired)
            then refuse f error
            else do reply ← exchange e f n (open_dir_pieces name); conclude_handle e f reply

  -- ReadDir from the host's answer on, with `memory` bytes at `name`. `maxLength - 1` wraps.
  unfoldable pub read_dir_answer : Folders → ℕ → ℕ → Reply → M (Result Bytes)
  unfolding stored_name
  read_dir_answer f max_length memory reply =
      let room = (max_length + 2 ^ 64 - 1) % 2 ^ 64 in
      if not (is_ok reply.status)
      then leave f reply.buffer reply.status none
      else if ltb reply.size 59
      then leave f reply.buffer error none
      else do
        name_length ← load_32 e reply.buffer 55
        if name_length == 0
            then leave f reply.buffer entry_not_found none
            else if ltb room name_length
            then leave f reply.buffer buffer_overflow none
            else do
              copied ← checked (c_string (drop 59 reply.buffer) room)
              name ← checked (stored_name memory room name_length copied)
              leave f reply.buffer ok (some name)

  -- VMWSharedFolders::ReadDir, with `memory` bytes at `name`; `out` is the string stored there.
  unfoldable pub read_dir : Folders → ℕ → ℕ → ℕ → ℕ → M (Result Bytes)
  read_dir f handle index max_length memory = do
    acquired ← acquire_sem e f.lock
    if not (is_ok acquired) then refuse f error else do
      reply ← exchange e f (6 + 4 + 4 + 4) (read_dir_pieces handle index)
      read_dir_answer f max_length memory reply

  -- VMWSharedFolders::CloseDir
  unfoldable pub close_dir : Folders → ℕ → M (Result (Unit {0}))
  close_dir f handle = do
    acquired ← acquire_sem e f.lock
    if not (is_ok acquired) then refuse f error else do
      reply ← exchange e f (6 + 4 + 4) (close_dir_pieces handle)
      leave f reply.buffer reply.status none

  -- VMWSharedFolders::CreateDir
  unfoldable pub create_dir : Folders → Bytes → ℕ → M (Result (Unit {0}))
  create_dir f name mode =
      let n = 6 + 4 + 1 + 4 + length name + 1 in
      if ltb f.rpc_buffer_size n then refuse f buffer_overflow else do
        acquired ← acquire_sem e f.lock
        if not (is_ok acquired)
            then refuse f error
            else do reply ← exchange e f n (create_dir_pieces name mode); conclude e f 10 reply
