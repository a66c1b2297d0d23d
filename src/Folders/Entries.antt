-- ===== src/Folders/Entries.antt =====
-- vmware_fs/VMWSharedFolders.cpp: GetAttributes, SetAttributes, Delete and Move.
use vmware_addons.Base.{
  ℕ, ◌+◌, Bool, true, false, not, none, some, Bytes, ◌==◌, ltb, cond, length, take, drop, List, [],
  ◌∷◌, of_le_bytes,
}
use vmware_addons.Machine.{
  Env, M, error, buffer_overflow, entry_not_found, is_ok, load, acquire_sem, if◌then◌else◌, ◌>>=◌,
}
use vmware_addons.Backdoor.Rpc.{Reply}
use vmware_addons.Folders.{
  Folders, Attributes, Piece, set_8, set_32, copy, path, convert_status, Result, exchange, load_32,
  leave, refuse, conclude, attribute_bytes, cmd_get_attr, cmd_set_attr, cmd_del_file, cmd_del_dir,
  cmd_move_file,
}

abbrev pub get_attributes_pieces : Bytes → List Piece
get_attributes_pieces name = set_32 cmd_get_attr ∷ set_32 (length name) ∷ path name ∷ []

abbrev pub set_attributes_pieces : Bytes → Attributes → ℕ → List Piece
set_attributes_pieces name a mask =
    set_32 cmd_set_attr
    ∷ set_32 mask
    ∷ set_8 0
    ∷ copy (attribute_bytes a)
    ∷ set_32 (length name)
    ∷ path name
    ∷ []

abbrev pub delete_pieces : Bytes → Bool → List Piece
delete_pieces name is_dir =
    set_32 (cond is_dir cmd_del_dir cmd_del_file) ∷ set_32 (length name) ∷ path name ∷ []

abbrev pub move_pieces : Bytes → Bytes → List Piece
move_pieces from to =
    set_32 cmd_move_file ∷ set_32 (length from) ∷ path from ∷ set_32 (length to) ∷ path to ∷ []

-- The 41 bytes of vmw_attributes.
unfoldable pub parse_attributes : Bytes → Attributes
parse_attributes bs = record {
  size = of_le_bytes (take 8 bs);
  cr_time = of_le_bytes (take 8 (drop 8 bs));
  a_time = of_le_bytes (take 8 (drop 16 bs));
  m_time = of_le_bytes (take 8 (drop 24 bs));
  c_time = of_le_bytes (take 8 (drop 32 bs));
  perms = of_le_bytes (take 1 (drop 40 bs));
}

module _ (e : Env) where
  -- GetAttributes from the host's answer on.
  unfoldable pub get_attributes_answer : Folders → Reply → M (Result (Attributes × Bool))
  get_attributes_answer f reply =
      if not (is_ok reply.status)
      then leave f reply.buffer reply.status none
      else if reply.size == 10
      then leave f reply.buffer entry_not_found none
      else if not (reply.size == 55)
      then leave f reply.buffer error none
      else do
        code ← load_32 e reply.buffer 6
        if not (is_ok (convert_status code))
            then leave f reply.buffer (convert_status code) none
            else do
              is_dir ← load_32 e reply.buffer 10
              bytes ← load reply.buffer 14 41
              leave f reply.buffer (convert_status code)
                  (some (parse_attributes bytes, not (is_dir == 0)))

  -- VMWSharedFolders::GetAttributes; `out` is what it stores where its pointers are not NULL.
  unfoldable pub get_attributes : Folders → Bytes → M (Result (Attributes × Bool))
  get_attributes f name =
      let n = 6 + 4 + 4 + length name + 1 in
      if ltb f.rpc_buffer_size n then refuse f buffer_overflow else do
        acquired ← acquire_sem e f.lock
        if not (is_ok acquired) then refuse f error else do
          reply ← exchange e f n (get_attributes_pieces name)
          get_attributes_answer f reply

  -- VMWSharedFolders::SetAttributes
  unfoldable pub set_attributes : Folders → Bytes → Attributes → ℕ → M (Result (Unit {0}))
  set_attributes f name a mask =
      let n = 6 + 4 + 4 + 1 + 41 + 4 + length name + 1 in
      if ltb f.rpc_buffer_size n then refuse f buffer_overflow else do
        acquired ← acquire_sem e f.lock
        if not (is_ok acquired) then refuse f error else do
          reply ← exchange e f n (set_attributes_pieces name a mask)
          conclude e f 10 reply

  -- VMWSharedFolders::Delete, which DeleteFile and DeleteDir call.
  unfoldable pub delete : Folders → Bytes → Bool → M (Result (Unit {0}))
  delete f name is_dir =
      let n = 6 + 4 + 4 + length name + 1 in
      if ltb f.rpc_buffer_size n then refuse f buffer_overflow else do
        acquired ← acquire_sem e f.lock
        if not (is_ok acquired)
            then refuse f error
            else do reply ← exchange e f n (delete_pieces name is_dir); conclude e f 10 reply

  -- VMWSharedFolders::DeleteFile
  unfoldable pub delete_file : Folders → Bytes → M (Result (Unit {0}))
  delete_file f name = delete f name false

  -- VMWSharedFolders::DeleteDir
  unfoldable pub delete_dir : Folders → Bytes → M (Result (Unit {0}))
  delete_dir f name = delete f name true

  -- VMWSharedFolders::Move
  unfoldable pub move : Folders → Bytes → Bytes → M (Result (Unit {0}))
  move f from to =
      let n = 6 + 4 + 4 + length from + 1 + 4 + length to + 1 in
      if ltb f.rpc_buffer_size n then refuse f buffer_overflow else do
        acquired ← acquire_sem e f.lock
        if not (is_ok acquired)
            then refuse f error
            else do reply ← exchange e f n (move_pieces from to); conclude e f 10 reply
