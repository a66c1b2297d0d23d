-- ===== src/Folders/Transfers.antt =====
-- ReadFile, WriteFile, ReadDir and GetAttributes, whose answers carry data, on a valid object.
use vmware_addons.Base.{
  ℕ, zero, suc, not, ◌+◌, ◌-◌, ◌%◌, ◌^◌, ◌≡◌, ◌≤◌, ◌<◌, refl, ◌∙◌, true, false, Bytes, List, [],
  ◌∷◌, ◌++◌, Option, none, some, length, arith, inl, ltb, is_some, read_at-is_some, length-append,
  get_elem?, get_elem?-drop, drop,
}
use vmware_addons.Machine.{
  Env, Trace, Status, ok, error, bad_address, ◌>>=◌, checked, log, acquired, refused,
  copied_from_user, bad_user_address, is_ok, if◌then◌else◌,
}
use vmware_addons.Machine.Laws.{Ensures, Returns-Ensures, Returns, Returns-bind}
use vmware_addons.Backdoor.Rpc.{Reply}
use vmware_addons.Backdoor.Rpc.Safety.{LeavesRoom}
use vmware_addons.Folders.{
  Folders, Piece, copy, put, build, deliver, conclude_handle, leave, refuse, start_bytes,
}
use vmware_addons.Folders.Command.{put-Built, put_all-Built}
use vmware_addons.Folders.Calls.{conclude_handle-Called}
use vmware_addons.Folders.Safety.{
  IsValid, Called, Exchanged, command, deliver-Returns, locked-Returns, sized-Returns,
  length-message_path,
}
use vmware_addons.Folders.Files.{
  write_file_data, write_file, write_file_pieces, read_file, read_file_answer, read_file_pieces,
}
use vmware_addons.Folders.Dirs.{c_string, read_dir, read_dir_answer, read_dir_pieces}
use vmware_addons.Folders.Entries.{get_attributes, get_attributes_answer, get_attributes_pieces}

-- What is stored, if anything is, is at most `n`.
abbrev pub AtMost : ℕ → Option ℕ → Type 0
AtMost n none = Unit {0}
AtMost n (some m) = m ≤ n

-- A 0 in reach ends the string.
c_string-is_some : (bs : Bytes) (n i : ℕ) → get_elem? bs i ≡ some 0 → is_some (c_string bs n) ≡ true
unfolding c_string
c_string-is_some bs zero i h = refl
c_string-is_some [] (suc n) i h = cc
c_string-is_some (c ∷ cs) (suc n) zero h = ground arith
c_string-is_some (c ∷ cs) (suc n) (suc i) h = ground (arith, c_string-is_some cs n i h)

-- So the name in an accepted reply of ReadDir ends inside the buffer.
name-is_some :
    (buf : Bytes) (size n : ℕ)
    → 59 ≤ size
    → get_elem? buf size ≡ some 0
    → is_some (c_string (drop 59 buf) n) ≡ true
name-is_some buf size n h z =
    let e : 59 + (size - 59) ≡ size = omega arith in
    c_string-is_some (drop 59 buf) n (size - 59) (get_elem?-drop 59 buf (size - 59) ∙ rw e z)

module _ (e : Env) (f : Folders) (v : IsValid f) (room : LeavesRoom e f.rpc_buffer_size) where
  read_file_answer-Called :
      (msg : Bytes) (n : ℕ) (t : Trace) (reply : Reply) (t' : Trace)
      → n + 26 ≤ f.rpc_buffer_size
      → Exchanged f msg t reply t'
      → Returns (Called f msg t) (read_file_answer e f n reply t')
  unfolding read_file_answer
  read_file_answer-Called msg n t reply t' h x = grind (arith, read_at-is_some)

  read_file-Called :
      (handle offset n : ℕ) (t : Trace)
      → n + 26 ≤ f.rpc_buffer_size
      → Returns
          (Called f (command (read_file_pieces handle offset n)) t)
          (read_file e f handle offset n t)
  unfolding read_file
  read_file-Called handle offset n t h =
      let small : ltb f.rpc_buffer_size (n + 26) ≡ false = ground arith in
      rw small (
        locked-Returns e f v room _ (read_file_pieces handle offset n) (read_file_answer e f n) t
          refl (omega arith) (λ reply t' x. read_file_answer-Called _ n t reply t' h x))

  read_file_answer-AtMost :
      (n : ℕ) (reply : Reply) (t : Trace)
      → Ensures (λ r. AtMost n r.out) (read_file_answer e f n reply t)
  unfolding read_file_answer
  read_file_answer-AtMost n reply t = ground arith

  read_file-AtMost :
      (handle offset n : ℕ) (t : Trace)
      → Ensures (λ r. AtMost n r.out) (read_file e f handle offset n t)
  unfolding read_file
  read_file-AtMost handle offset n t = grind (arith, read_file_answer-AtMost)

  -- On a valid object with room for the command and the bytes asked for, and with a host that
  -- announces no reply of just the buffer's size, ReadFile ends without an access outside memory and
  -- without a panic. It sends its command or nothing, the object stays valid with the buffer's size,
  -- lock and backdoor, and it stores a length of at most the bytes asked for, if any.
  pub read_file-Returns :
      (handle offset n : ℕ) (t : Trace)
      → n + 26 ≤ f.rpc_buffer_size
      → Returns
          (λ r t'. Called f (command (read_file_pieces handle offset n)) t r t' × AtMost n r.out)
          (read_file e f handle offset n t)
  read_file-Returns handle offset n t h =
      Returns-Ensures (Called f (command (read_file_pieces handle offset n)) t)
        (λ r. AtMost n r.out) (read_file e f handle offset n t)
        (read_file-Called handle offset n t h) (read_file-AtMost handle offset n t)

  read_dir_answer-Called :
      (msg : Bytes) (n memory : ℕ) (t : Trace) (reply : Reply) (t' : Trace)
      → (n + 2 ^ 64 - 1) % 2 ^ 64 < memory
      → Exchanged f msg t reply t'
      → Returns (Called f msg t) (read_dir_answer e f n memory reply t')
  unfolding read_dir_answer
  read_dir_answer-Called msg n memory t reply t' fits x = ground (
    arith,
    read_at-is_some reply.buffer 55 4,
    name-is_some reply.buffer reply.size ((n + 2 ^ 64 - 1) % 2 ^ 64),
  )

  get_attributes_answer-Called :
      (msg : Bytes) (t : Trace) (reply : Reply) (t' : Trace)
      → Exchanged f msg t reply t'
      → Returns (Called f msg t) (get_attributes_answer e f reply t')
  unfolding get_attributes_answer
  get_attributes_answer-Called msg t reply t' x = grind (arith, read_at-is_some)

  -- On a valid object, and with a host that announces no reply of just the
  -- buffer's size, GetAttributes ends without an access outside memory and without a panic. It sends
  -- its command or nothing, and the object stays valid with the buffer's size, lock and backdoor.
  pub get_attributes-Called :
      (name : Bytes) (t : Trace)
      → Returns (Called f (command (get_attributes_pieces name)) t) (get_attributes e f name t)
  unfolding get_attributes
  get_attributes-Called name t =
      sized-Returns e f v room _ _ (get_attributes_answer e f) t
        (omega (arith, length-message_path name [])) (λ h. omega arith)
        (get_attributes_answer-Called _ t)

  -- On a valid object, which has room for the command, with more than `maxLength - 1` bytes at `name`, and with a host
  -- that announces no reply of just the buffer's size, ReadDir ends without an access outside memory and without a panic. It sends
  -- its command or nothing, and the object stays valid with the buffer's size, lock and backdoor.
  pub read_dir-Called :
      (handle index n memory : ℕ) (t : Trace)
      → 18 ≤ f.rpc_buffer_size
      → (n + 2 ^ 64 - 1) % 2 ^ 64 < memory
      → Returns
          (Called f (command (read_dir_pieces handle index)) t)
          (read_dir e f handle index n memory t)
  unfolding read_dir
  read_dir-Called handle index n memory t h fits =
      locked-Returns e f v room _ (read_dir_pieces handle index) (read_dir_answer e f n memory) t
        refl (omega arith) (λ reply t' x. read_dir_answer-Called _ n memory t reply t' fits x)

  written-Called :
      (bytes head rest : Bytes) (n : ℕ) (t : Trace)
      → n ≡ length head + length bytes
      → length head + length rest ≡ f.rpc_buffer_size
      → length bytes ≤ length rest
      → Returns (Called f (head ++ bytes) t) (
          (do
            (full, end) ← checked (put (head ++ rest) (length head) (copy bytes))
            reply ← deliver e f full end n
            conclude_handle e f reply)
            t)
  written-Called bytes head rest n t whole size fits =
      let (r, put_there, left) = put-Built head rest (copy bytes) fits in
      rw put_there (
        Returns-bind (Exchanged f (head ++ bytes) t) (Called f (head ++ bytes) t)
          (deliver e f ((head ++ bytes) ++ r) (length (head ++ bytes)) n) (conclude_handle e f) t
          (deliver-Returns e f v room (head ++ bytes) r n t
            (omega (arith, length-append head bytes))
            (omega (arith, length-append head bytes, left)))
          (conclude_handle-Called e f v room (head ++ bytes) t))

  write_file_data-Called :
      (bytes head rest : Bytes) (n : ℕ) (t : Trace)
      → n ≡ length head + length bytes
      → length head + length rest ≡ f.rpc_buffer_size
      → length bytes ≤ length rest
      → Returns
          (Called f (head ++ bytes) t)
          (write_file_data e f bytes n (head ++ rest) (length head) t)
  unfolding write_file_data
  write_file_data-Called bytes head rest n t whole size fits =
      go (e.user_memcpy_answer t (length bytes))
    where
      go :
          (s : Status)
          → Returns (Called f (head ++ bytes) t) (
              (do
                a ←
                    if is_ok s
                    then log (copied_from_user (length bytes)) s
                    else log bad_user_address s
                if not (is_ok a) then leave f (head ++ rest) bad_address none else do
                  (full, end) ← checked (put (head ++ rest) (length head) (copy bytes))
                  reply ← deliver e f full end n
                  conclude_handle e f reply)
                t)
      go ok = written-Called bytes head rest n (copied_from_user (length bytes) ∷ t) whole size fits
      go _ = (inl refl, omega (arith, length-append head rest), refl, refl, refl)

  -- On a valid object, which has room for the command and the bytes, and with a host that announces no reply of just the
  -- buffer's size, WriteFile ends without an access outside memory and without a panic. It sends
  -- its command or nothing, and the object stays valid with the buffer's size, lock and backdoor.
  pub write_file-Called :
      (handle offset : ℕ) (bytes : Bytes) (t : Trace)
      → length bytes + 27 ≤ f.rpc_buffer_size
      → Returns
          (Called f (command (write_file_pieces handle offset (length bytes)) ++ bytes) t)
          (write_file e f handle offset bytes t)
  unfolding write_file
  write_file-Called handle offset bytes t h =
      let small : ltb f.rpc_buffer_size (6 + 4 + 4 + 1 + 8 + 4 + length bytes) ≡ false =
        ground arith in
      rw small (go (e.acquire_answer t f.lock))
    where
      head : List Piece
      head = write_file_pieces handle offset (length bytes)

      go :
          (s : Status)
          → Returns (Called f (command head ++ bytes) t) (
              (do
                a ← if is_ok s then log (acquired f.lock) s else log (refused f.lock) s
                if not (is_ok a) then refuse f error else do
                  (buffer, pos) ← build e f head
                  write_file_data e f bytes (6 + 4 + 4 + 1 + 8 + 4 + length bytes) buffer pos)
                t)
      go ok =
          let (rest, built, left) =
            put_all-Built [] f.rpc_buffer (copy start_bytes ∷ head) (rw v (omega arith)) in
          rw built (
            write_file_data-Called bytes (command head) rest _ (acquired f.lock ∷ t) (omega arith)
              (omega arith) (omega arith))
      go _ = (inl refl, v, refl, refl, refl)
