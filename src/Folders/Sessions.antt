-- ===== src/Folders/Sessions.antt =====
-- The operations of vmware_fs/VMWSharedFolders.cpp by name, called in any order on one object.
pub mod Locking
use vmware_addons.Base.{
  ℕ, ◌+◌, ◌-◌, ◌%◌, ◌^◌, ◌<◌, ◌≤◌, ◌≡◌, ◌≢◌, ◌⊎◌, inl, inr, refl, ◌∙◌, Bool, true, false, Bytes,
  List, [], ◌∷◌, ◌++◌, length,
}
use vmware_addons.Machine.{Env, M, Trace, Outcome, done, fault, panic, pure, ◌>>=◌}
use vmware_addons.Machine.Laws.{Returns, Returns-bind, Returns-mono, held, sent}
use vmware_addons.Backdoor.Rpc.Safety.{LeavesRoom, SendsOnly}
use vmware_addons.Folders.{Attributes, Folders, OpenMode, Result}
use vmware_addons.Folders.Safety.{Called, IsValid, command}
use vmware_addons.Folders.Calls.{
  close_dir-Called, close_file-Called, create_dir-Called, delete-Called, move-Called,
  open_dir-Called, open_file-Called, set_attributes-Called,
}
use vmware_addons.Folders.Transfers.{
  get_attributes-Called, read_dir-Called, read_file-Returns, write_file-Called,
}
use vmware_addons.Folders.Files.{
  close_file, close_file_pieces, open_file, open_file_pieces, read_file, read_file_pieces,
  write_file, write_file_pieces,
}
use vmware_addons.Folders.Dirs.{
  close_dir, close_dir_pieces, create_dir, create_dir_pieces, open_dir, open_dir_pieces, read_dir,
  read_dir_pieces,
}
use vmware_addons.Folders.Entries.{
  delete, delete_pieces, get_attributes, get_attributes_pieces, move, move_pieces, set_attributes,
  set_attributes_pieces,
}

-- A call, with its arguments; of ReadDir the last is how many bytes there are at `name`.
pub data Call : Type 0 where
  opens_file : Bytes → OpenMode → Call
  reads_file : ℕ → ℕ → ℕ → Call
  writes_file : ℕ → ℕ → Bytes → Call
  closes_file : ℕ → Call
  opens_dir : Bytes → Call
  reads_dir : ℕ → ℕ → ℕ → ℕ → Call
  closes_dir : ℕ → Call
  creates_dir : Bytes → ℕ → Call
  gets_attributes : Bytes → Call
  sets_attributes : Bytes → Attributes → ℕ → Call
  deletes : Bytes → Bool → Call
  moves : Bytes → Bytes → Call

-- The message that a call is to send.
abbrev pub message_of : Call → Bytes
message_of (opens_file name m) = command (open_file_pieces name m)
message_of (reads_file handle offset n) = command (read_file_pieces handle offset n)
message_of (writes_file handle offset bytes) =
    command (write_file_pieces handle offset (length bytes)) ++ bytes
message_of (closes_file handle) = command (close_file_pieces handle)
message_of (opens_dir name) = command (open_dir_pieces name)
message_of (reads_dir handle index n memory) = command (read_dir_pieces handle index)
message_of (closes_dir handle) = command (close_dir_pieces handle)
message_of (creates_dir name mode) = command (create_dir_pieces name mode)
message_of (gets_attributes name) = command (get_attributes_pieces name)
message_of (sets_attributes name a mask) = command (set_attributes_pieces name a mask)
message_of (deletes name is_dir) = command (delete_pieces name is_dir)
message_of (moves from to) = command (move_pieces from to)

-- The room that a call takes for granted in the buffer; one with a path looks for itself.
abbrev pub room_of : Call → ℕ
room_of (reads_file handle offset n) = n + 26
room_of (writes_file handle offset bytes) = length bytes + 27
room_of (closes_file handle) = 14
room_of (reads_dir handle index n memory) = 18
room_of (closes_dir handle) = 14
room_of _ = 0

-- ReadDir takes for granted that more than `maxLength - 1` bytes, on 64 bits, are at `name`.
abbrev pub HasMemory : Call → Type 0
HasMemory (reads_dir handle index n memory) = (n + 2 ^ 64 - 1) % 2 ^ 64 < memory
HasMemory _ = Unit {0}

abbrev pub then_folders {ℓ} : {A : Type ℓ} → M (Result A) → M Folders
then_folders m = do r ← m; pure r.folders

module _ (e : Env) where
  -- A call, and the object after it.
  abbrev pub run : Folders → Call → M Folders
  run f (opens_file name m) = then_folders (open_file e f name m)
  run f (reads_file handle offset n) = then_folders (read_file e f handle offset n)
  run f (writes_file handle offset bytes) = then_folders (write_file e f handle offset bytes)
  run f (closes_file handle) = then_folders (close_file e f handle)
  run f (opens_dir name) = then_folders (open_dir e f name)
  run f (reads_dir handle index n memory) = then_folders (read_dir e f handle index n memory)
  run f (closes_dir handle) = then_folders (close_dir e f handle)
  run f (creates_dir name mode) = then_folders (create_dir e f name mode)
  run f (gets_attributes name) = then_folders (get_attributes e f name)
  run f (sets_attributes name a mask) = then_folders (set_attributes e f name a mask)
  run f (deletes name is_dir) = then_folders (delete e f name is_dir)
  run f (moves from to) = then_folders (move e f from to)

  -- Calls in a row.
  unfoldable pub run_all : Folders → List Call → M Folders
  run_all f [] = pure f
  run_all f (c ∷ cs) = do g ← run f c; run_all g cs

-- What one call has to do: its message or nothing is sent, and the object stays as `Called` states.
abbrev pub Served : Folders → Bytes → Trace → Folders → Trace → Type 0
Served f msg t g t' =
    SendsOnly msg t t'
    × IsValid g
    × (g.rpc_buffer_size ≡ f.rpc_buffer_size)
    × (g.lock ≡ f.lock)
    × (g.backdoor ≡ f.backdoor)

served {ℓ} :
    {A : Type ℓ} (f : Folders) (msg : Bytes) (t : Trace) (m : M (Result A))
    → Returns (Called f msg t) (m t)
    → Returns (Served f msg t) (then_folders m t)
served f msg t m h = Returns-bind (Called f msg t) (Served f msg t) m _ t h (λ r t' c. c)

module _ (e : Env) where
  -- On a valid object whose buffer has room for what the call takes for granted, with enough bytes at the
  -- name of ReadDir, and with a host that announces no reply of just the buffer's size, every call ends
  -- without an access outside memory and without a panic. It sends its command or nothing, and the object
  -- stays valid with the buffer's size, lock and backdoor.
  pub run-Served :
      (f : Folders) (c : Call) (t : Trace)
      → IsValid f
      → LeavesRoom e f.rpc_buffer_size
      → room_of c ≤ f.rpc_buffer_size
      → HasMemory c
      → Returns (Served f (message_of c) t) (run e f c t)
  run-Served f (opens_file name m) t v room big fits =
      served f _ t (open_file e f name m) (open_file-Called e f v room name m t)
  run-Served f (reads_file handle offset n) t v room big fits =
      served f _ t (read_file e f handle offset n) (
        Returns-mono _ (Called f _ t) (read_file e f handle offset n t)
          (read_file-Returns e f v room handle offset n t big) (λ r t' h. h.0))
  run-Served f (writes_file handle offset bytes) t v room big fits =
      served f _ t (write_file e f handle offset bytes)
        (write_file-Called e f v room handle offset bytes t big)
  run-Served f (closes_file handle) t v room big fits =
      served f _ t (close_file e f handle) (close_file-Called e f v room handle t big)
  run-Served f (opens_dir name) t v room big fits =
      served f _ t (open_dir e f name) (open_dir-Called e f v room name t)
  run-Served f (reads_dir handle index n memory) t v room big fits =
      served f _ t (read_dir e f handle index n memory)
        (read_dir-Called e f v room handle index n memory t big fits)
  run-Served f (closes_dir handle) t v room big fits =
      served f _ t (close_dir e f handle) (close_dir-Called e f v room handle t big)
  run-Served f (creates_dir name mode) t v room big fits =
      served f _ t (create_dir e f name mode) (create_dir-Called e f v room name mode t)
  run-Served f (gets_attributes name) t v room big fits =
      served f _ t (get_attributes e f name) (get_attributes-Called e f v room name t)
  run-Served f (sets_attributes name a mask) t v room big fits =
      served f _ t (set_attributes e f name a mask) (set_attributes-Called e f v room name a mask t)
  run-Served f (deletes name is_dir) t v room big fits =
      served f _ t (delete e f name is_dir) (delete-Called e f v room name is_dir t)
  run-Served f (moves from to) t v room big fits =
      served f _ t (move e f from to) (move-Called e f v room from to t)

-- Some of the messages, in their order, are sent after the old ones; the last is first.
abbrev pub Delivered : List Bytes → List Bytes → List Bytes → Type 0
Delivered [] old new = new ≡ old
Delivered (m ∷ ms) old new = Delivered ms old new ⊎ Delivered ms (m ∷ old) new

abbrev pub messages_of : List Call → List Bytes
messages_of [] = []
messages_of (c ∷ cs) = message_of c ∷ messages_of cs

-- Each call has its room, and its memory.
abbrev pub Roomy : ℕ → List Call → Type 0
Roomy size [] = Unit {0}
Roomy size (c ∷ cs) = (room_of c ≤ size) × HasMemory c × Roomy size cs

-- What calls in a row have to do.
abbrev pub AllServed : Folders → List Call → Trace → Folders → Trace → Type 0
AllServed f cs t g t' =
    Delivered (messages_of cs) (sent t) (sent t')
    × IsValid g
    × (g.rpc_buffer_size ≡ f.rpc_buffer_size)
    × (g.lock ≡ f.lock)
    × (g.backdoor ≡ f.backdoor)

module _ (e : Env) where
  -- On a valid object whose buffer has room for what each call takes for granted, with more than
  -- `maxLength - 1` bytes, on 64 bits, at the name of each ReadDir, and with a host that announces no
  -- reply of just the buffer's size, any calls in any order end without an access outside memory and
  -- without a panic. Each sends its command once or not at all, in the order of the calls, and the object
  -- stays valid with the buffer's size, lock and backdoor.
  pub run_all-Served :
      (f : Folders) (cs : List Call) (t : Trace)
      → IsValid f
      → LeavesRoom e f.rpc_buffer_size
      → Roomy f.rpc_buffer_size cs
      → Returns (AllServed f cs t) (run_all e f cs t)
  unfolding run_all
  run_all-Served f [] t v room big = (refl, v, refl, refl, refl)
  run_all-Served f (c ∷ cs) t v room (first, fits, big) =
      Returns-bind (Served f (message_of c) t) (AllServed f (c ∷ cs) t) (run e f c) _ t
        (run-Served e f c t v room first fits)
        (λ g t' (sends, valid, size, lock, door).
          Returns-mono (AllServed g cs t') (AllServed f (c ∷ cs) t) (run_all e g cs t')
            (run_all-Served g cs t' valid (rw size room) (rw size big))
            (λ h u (later, valid', size', lock', door'). (
              elim sends [ inl none_ ↦ inl (rw none_ at later) | inr one ↦ inr (rw one at later) ],
              valid',
              size' ∙ size,
              lock' ∙ lock,
              door' ∙ door,
            )))
