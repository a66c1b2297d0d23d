-- ===== src/Folders/Safety.antt =====
-- The commands on a valid object: no access outside the buffer, no failed ASSERT, and what goes out.
use vmware_addons.Base.{
  ℕ, not, ltb, map, Bool-cases, inl, inr, ◌+◌, ◌≡◌, ◌≤◌, refl, Bytes, List, [], ◌∷◌, ◌++◌, length,
  arith, take-append_length, length-append,
}
use vmware_addons.Machine.{
  Env, M, Trace, Status, ok, error, buffer_overflow, acquired, refused, log, Outcome, is_ok,
  acquire_sem, if◌then◌else◌, ◌>>=◌,
}
use vmware_addons.Machine.Laws.{Returns, Returns-bind}
use vmware_addons.Backdoor.Rpc.{Reply}
use vmware_addons.Backdoor.Rpc.Safety.{Accepted, LeavesRoom, SendsOnly, send_and_get-Returns}
use vmware_addons.Folders.{
  Folders, Piece, copy, start_bytes, exchange, deliver, refuse, Result, path, wire_char,
}
use vmware_addons.Folders.Command.{message, length_path, Fits, put_all-Built, message-le-room}

-- The buffer has the size that the object says.
abbrev pub IsValid : Folders → Type 0
IsValid f = length f.rpc_buffer ≡ f.rpc_buffer_size

-- The command of some build steps.
abbrev pub command : List Piece → Bytes
command ps = start_bytes ++ message ps

abbrev pub Exchanged : Folders → Bytes → Trace → Reply → Trace → Type 0
Exchanged f msg t reply t' =
    SendsOnly msg t t'
    × (length reply.buffer ≡ f.rpc_buffer_size)
    × Accepted f.rpc_buffer_size reply

module _ (e : Env) (f : Folders) (v : IsValid f) (room : LeavesRoom e f.rpc_buffer_size) where
  pub deliver-Returns :
      (msg rest : Bytes) (n : ℕ) (t : Trace)
      → n ≡ length msg
      → length msg + length rest ≡ f.rpc_buffer_size
      → Returns (Exchanged f msg t) (deliver e f (msg ++ rest) (length msg) n t)
  deliver-Returns msg rest n t whole fits =
      let size : length (msg ++ rest) ≡ f.rpc_buffer_size = omega (arith, length-append msg rest) in
      let run = send_and_get-Returns e f.backdoor (msg ++ rest) n t (omega arith) (rw size room) in
      ground (arith, run, whole, size, take-append_length msg rest)

  pub exchange-Returns :
      (n : ℕ) (ps : List Piece) (t : Trace)
      → n ≡ 6 + length (message ps)
      → Fits (copy start_bytes ∷ ps) f.rpc_buffer_size
      → Returns (Exchanged f (command ps) t) (exchange e f n ps t)
  unfolding exchange
  exchange-Returns n ps t h fits =
      let (rest, built, left) = put_all-Built [] f.rpc_buffer (copy start_bytes ∷ ps) (rw v fits) in
      let le : length (command ps) ≤ f.rpc_buffer_size =
        message-le-room (copy start_bytes ∷ ps) f.rpc_buffer_size fits in
      let run = deliver-Returns (command ps) rest n t (omega arith) (omega arith) in
      ground (arith, built, run)

abbrev pub Called {ℓ} : {A : Type ℓ} → Folders → Bytes → Trace → Result A → Trace → Type 0
Called f msg t r t' =
    SendsOnly msg t t'
    × IsValid r.folders
    × (r.folders.rpc_buffer_size ≡ f.rpc_buffer_size)
    × (r.folders.lock ≡ f.lock)
    × (r.folders.backdoor ≡ f.backdoor)

module _ (e : Env) (f : Folders) (v : IsValid f) (room : LeavesRoom e f.rpc_buffer_size) where
  -- The frame of a command, round what it does with the reply.
  pub locked-Returns {ℓ} :
      {A : Type ℓ} (n : ℕ) (ps : List Piece) (k : Reply → M (Result A)) (t : Trace)
      → n ≡ 6 + length (message ps)
      → Fits (copy start_bytes ∷ ps) f.rpc_buffer_size
      → ((reply : Reply) (t' : Trace)
          → Exchanged f (command ps) t reply t'
          → Returns (Called f (command ps) t) (k reply t'))
      → Returns (Called f (command ps) t) (
          (do
            a ← acquire_sem e f.lock
            if not (is_ok a) then refuse f error else do reply ← exchange e f n ps; k reply)
            t)
  locked-Returns {A} n ps k t h fits rest = go (e.acquire_answer t f.lock)
    where
      taken : Trace → Outcome (Result A)
      taken = do reply ← exchange e f n ps; k reply

      go :
          (s : Status)
          → Returns (Called f (command ps) t) (
              (do
                a ← if is_ok s then log (acquired f.lock) s else log (refused f.lock) s
                if not (is_ok a) then refuse f error else taken)
                t)
      go ok =
          Returns-bind (Exchanged f (command ps) t) (Called f (command ps) t) (exchange e f n ps) k
            (acquired f.lock ∷ t) (exchange-Returns e f v room n ps (acquired f.lock ∷ t) h fits)
            rest
      go _ = (inl refl, v, refl, refl, refl)

  -- The same behind the test of the command's size.
  pub sized-Returns {ℓ} :
      {A : Type ℓ} (n : ℕ) (ps : List Piece) (k : Reply → M (Result A)) (t : Trace)
      → n ≡ 6 + length (message ps)
      → (n ≤ f.rpc_buffer_size → Fits (copy start_bytes ∷ ps) f.rpc_buffer_size)
      → ((reply : Reply) (t' : Trace)
          → Exchanged f (command ps) t reply t'
          → Returns (Called f (command ps) t) (k reply t'))
      → Returns (Called f (command ps) t) (
          (if ltb f.rpc_buffer_size n then refuse f buffer_overflow else do
            a ← acquire_sem e f.lock
            if not (is_ok a) then refuse f error else do reply ← exchange e f n ps; k reply)
            t)
  sized-Returns n ps k t h fits rest = elim (Bool-cases (ltb f.rpc_buffer_size n)) [
    | inl big ↦ rw big (inl refl, v, refl, refl, refl)
    | inr small ↦ rw small (locked-Returns n ps k t h (fits (ground arith)) rest)
  ]

-- The length of a message with a path.
pub length-message_path :
    (p : Bytes) (ps : List Piece)
    → length (message (path p ∷ ps)) ≡ length p + 1 + length (message ps)
length-message_path p ps =
    omega (arith, length-append (map wire_char p ++ (0 ∷ [])) (message ps), length_path p)

pub length-message_copy :
    (bs : Bytes) (ps : List Piece)
    → length (message (copy bs ∷ ps)) ≡ length bs + length (message ps)
length-message_copy bs ps = length-append bs (message ps)
