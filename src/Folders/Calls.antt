-- ===== src/Folders/Calls.antt =====
-- The commands that open, write and close files, on a valid object: each ends, keeps the object
-- valid, and sends its own message or nothing.
use vmware_addons.Base.{ℕ, ◌≤◌, refl, Bool, Bytes, [], ◌∷◌, length, none, arith, read_at-is_some}
use vmware_addons.Machine.{Env, Trace}
use vmware_addons.Machine.Laws.{Returns}
use vmware_addons.Backdoor.Rpc.{Reply}
use vmware_addons.Backdoor.Rpc.Safety.{LeavesRoom}
use vmware_addons.Folders.{
  Folders, OpenMode, Attributes, path, conclude_handle, conclude, leave, set_32,
}
use vmware_addons.Folders.Command.{length_path}
use vmware_addons.Folders.Safety.{
  IsValid, Called, Exchanged, command, locked-Returns, sized-Returns, length-message_path,
}
use vmware_addons.Folders.Files.{open_file, open_file_pieces, close_file, close_file_pieces}
use vmware_addons.Folders.Dirs.{
  open_dir, open_dir_pieces, close_dir, close_dir_pieces, create_dir, create_dir_pieces,
}
use vmware_addons.Folders.Entries.{
  set_attributes, set_attributes_pieces, delete, delete_pieces, move, move_pieces,
}

module _ (e : Env) (f : Folders) (v : IsValid f) (room : LeavesRoom e f.rpc_buffer_size) where
  pub conclude_handle-Called :
      (msg : Bytes) (t : Trace) (reply : Reply) (t' : Trace)
      → Exchanged f msg t reply t'
      → Returns (Called f msg t) (conclude_handle e f reply t')
  conclude_handle-Called msg t reply t' x = grind (arith, read_at-is_some)

  pub conclude-Called :
      (msg : Bytes) (t : Trace) (reply : Reply) (t' : Trace)
      → Exchanged f msg t reply t'
      → Returns (Called f msg t) (conclude e f 10 reply t')
  conclude-Called msg t reply t' x = grind (arith, read_at-is_some)

  -- On a valid object, and with a host that announces no reply of just the
  -- buffer's size, OpenFile ends without an access outside memory and without a panic. It sends
  -- its command or nothing, and the object stays valid with the buffer's size, lock and backdoor.
  pub open_file-Called :
      (name : Bytes) (m : OpenMode) (t : Trace)
      → Returns (Called f (command (open_file_pieces name m)) t) (open_file e f name m t)
  unfolding open_file
  open_file-Called name m t =
      sized-Returns e f v room _ _ (conclude_handle e f) t
        (omega (arith, length-message_path name [])) (λ h. omega arith) (conclude_handle-Called _ t)

  -- On a valid object, which has room for the command, and with a host that announces no reply of just the
  -- buffer's size, CloseFile ends without an access outside memory and without a panic. It sends
  -- its command or nothing, and the object stays valid with the buffer's size, lock and backdoor.
  pub close_file-Called :
      (handle : ℕ) (t : Trace)
      → 14 ≤ f.rpc_buffer_size
      → Returns (Called f (command (close_file_pieces handle)) t) (close_file e f handle t)
  unfolding close_file
  close_file-Called handle t h =
      locked-Returns e f v room _ (close_file_pieces handle)
        (λ reply. leave f reply.buffer reply.status none) t refl (omega arith)
        (λ reply t' x. (x.0, x.1, refl, refl, refl))

  -- On a valid object, and with a host that announces no reply of just the
  -- buffer's size, OpenDir ends without an access outside memory and without a panic. It sends
  -- its command or nothing, and the object stays valid with the buffer's size, lock and backdoor.
  pub open_dir-Called :
      (name : Bytes) (t : Trace)
      → Returns (Called f (command (open_dir_pieces name)) t) (open_dir e f name t)
  unfolding open_dir
  open_dir-Called name t =
      sized-Returns e f v room _ _ (conclude_handle e f) t
        (omega (arith, length-message_path name [])) (λ h. omega arith) (conclude_handle-Called _ t)

  -- On a valid object, which has room for the command, and with a host that announces no reply of just the
  -- buffer's size, CloseDir ends without an access outside memory and without a panic. It sends
  -- its command or nothing, and the object stays valid with the buffer's size, lock and backdoor.
  pub close_dir-Called :
      (handle : ℕ) (t : Trace)
      → 14 ≤ f.rpc_buffer_size
      → Returns (Called f (command (close_dir_pieces handle)) t) (close_dir e f handle t)
  unfolding close_dir
  close_dir-Called handle t h =
      locked-Returns e f v room _ (close_dir_pieces handle)
        (λ reply. leave f reply.buffer reply.status none) t refl (omega arith)
        (λ reply t' x. (x.0, x.1, refl, refl, refl))

  -- On a valid object, and with a host that announces no reply of just the
  -- buffer's size, CreateDir ends without an access outside memory and without a panic. It sends
  -- its command or nothing, and the object stays valid with the buffer's size, lock and backdoor.
  pub create_dir-Called :
      (name : Bytes) (mode : ℕ) (t : Trace)
      → Returns (Called f (command (create_dir_pieces name mode)) t) (create_dir e f name mode t)
  unfolding create_dir
  create_dir-Called name mode t =
      sized-Returns e f v room _ _ (conclude e f 10) t (omega (arith, length-message_path name []))
        (λ h. omega arith) (conclude-Called _ t)

  -- On a valid object, and with a host that announces no reply of just the
  -- buffer's size, SetAttributes ends without an access outside memory and without a panic. It sends
  -- its command or nothing, and the object stays valid with the buffer's size, lock and backdoor.
  pub set_attributes-Called :
      (name : Bytes) (a : Attributes) (mask : ℕ) (t : Trace)
      → Returns
          (Called f (command (set_attributes_pieces name a mask)) t)
          (set_attributes e f name a mask t)
  unfolding set_attributes
  set_attributes-Called name a mask t =
      sized-Returns e f v room _ _ (conclude e f 10) t (omega (arith, length-message_path name []))
        (λ h. omega arith) (conclude-Called _ t)

  -- On a valid object, and with a host that announces no reply of just the
  -- buffer's size, Delete, of a file or of a directory, ends without an access outside memory and without a panic. It sends
  -- its command or nothing, and the object stays valid with the buffer's size, lock and backdoor.
  pub delete-Called :
      (name : Bytes) (is_dir : Bool) (t : Trace)
      → Returns (Called f (command (delete_pieces name is_dir)) t) (delete e f name is_dir t)
  unfolding delete
  delete-Called name is_dir t =
      sized-Returns e f v room _ _ (conclude e f 10) t (omega (arith, length-message_path name []))
        (λ h. omega arith) (conclude-Called _ t)

  -- On a valid object, and with a host that announces no reply of just the
  -- buffer's size, Move ends without an access outside memory and without a panic. It sends
  -- its command or nothing, and the object stays valid with the buffer's size, lock and backdoor.
  pub move-Called :
      (from to : Bytes) (t : Trace)
      → Returns (Called f (command (move_pieces from to)) t) (move e f from to t)
  unfolding move
  move-Called from to t =
      sized-Returns e f v room _ _ (conclude e f 10) t
        (omega (
          arith,
          length-message_path from (set_32 (length to) ∷ path to ∷ []),
          length-message_path to [],
        ))
        (λ h. omega (arith, length_path from)) (conclude-Called _ t)
