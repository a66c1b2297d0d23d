-- ===== src/Fs/Loops.antt =====
-- The loops of vmwfs_read and vmwfs_write in vmware_fs/file_operations.cpp.
use vmware_addons.Base.{
  ℕ, zero, suc, not, ◌+◌, ◌%◌, ◌^◌, ◌==◌, ◌≡◌, ◌≤◌, ◌<◌, refl, Bool, true, false, Bool-cases, inl,
  inr, Bytes, Option, none, some, length, take, drop, ltb, ◌&&◌, arith,
}
use vmware_addons.Machine.{Env, M, Trace, ok, is_ok, ◌>>=◌, pure}
use vmware_addons.Machine.Laws.{Returns, Returns-bind, Returns-mono}
use vmware_addons.Folders.{Folders, Result}
use vmware_addons.Folders.Safety.{IsValid}
use vmware_addons.Folders.Transfers.{AtMost, read_file-Returns}
use vmware_addons.Folders.Files.{read_file}
use vmware_addons.Backdoor.Rpc.Safety.{LeavesRoom}
use vmware_addons.Fs.{Volume, Returned, io_size}
use vmware_addons.Fs.Files.{Progress, chunk, out_or, read_loop, write_loop, vmwfs_read, is_negative}

-- The loop ended within its fuel, with at most `n` bytes counted and the object as stated.
abbrev pub Finished : (Folders → Type 0) → ℕ → Option Progress → Type 0
Finished P n none = ⊥
Finished P n (some p) = (p.count ≤ n) × P p.folders

-- What a read of at most `io_size` bytes has to do.
abbrev pub Reads : (Folders → Type 0) → (Folders → ℕ → ℕ → M (Result ℕ)) → Type 0
Reads P read =
    (f : Folders) (pos n : ℕ) (t : Trace)
    → P f
    → n ≤ io_size
    → Returns (λ r t'. P r.folders × AtMost n r.out) (read f pos n t)

module _ (P : Folders → Type 0) (read : Folders → ℕ → ℕ → M (Result ℕ)) (reads : Reads P read) where
  read_loop-Returns :
      (fuel : ℕ) (f : Folders) (pos n so_far : ℕ) (t : Trace)
      → P f
      → so_far ≤ n
      → n < so_far + fuel
      → Returns (λ o t'. Finished P n o) (read_loop read fuel f pos n so_far t)
  unfolding read_loop
  read_loop-Returns zero f pos n so_far t h le fits = omega arith
  read_loop-Returns (suc fuel) f pos n so_far t h le fits =
      Returns-bind (λ r t'. P r.folders × AtMost (chunk n so_far) r.out) (λ o t'. Finished P n o)
        (read f ((pos + so_far) % 2 ^ 64) (chunk n so_far)) _ t
        (reads f _ (chunk n so_far) t h (ground arith))
        (λ r t' (kept, most). go (read_loop-Returns fuel) r t' kept (bound r.out most) _ refl)
    where
      bound : (o : Option ℕ) → AtMost (chunk n so_far) o → so_far + out_or (chunk n so_far) o ≤ n
      bound none h = ground arith
      bound (some m) h = ground arith

      go :
          ((g : Folders) (at n' k : ℕ) (u : Trace)
            → P g
            → k ≤ n'
            → n' < k + fuel
            → Returns (λ o _. Finished P n' o) (read_loop read fuel g at n' k u))
          → (r : Result ℕ) (t' : Trace) → P r.folders
          → so_far + out_or (chunk n so_far) r.out ≤ n
          → (b : Bool)
          → (not (out_or (chunk n so_far) r.out == 0)
              && ltb (so_far + out_or (chunk n so_far) r.out) n
              && is_ok r.status)
            ≡ b
          → Returns
              (λ o _. Finished P n o)
              ((elim b as (λ _. M (Option Progress)) [
                | true ↦
                    read_loop read fuel r.folders pos n (so_far + out_or (chunk n so_far) r.out)
                | false ↦ pure (
                    some (record {
                      status = r.status;
                      count = so_far + out_or (chunk n so_far) r.out;
                      folders = r.folders;
                    }))
              ])
                t')
      go rest r t' kept h true more =
          rest r.folders pos n (so_far + out_or (chunk n so_far) r.out) t' kept h (ground arith)
      go rest r t' kept h false stop = (h, kept)

-- The object that the loops keep, and a reply buffer that the host never fills to the last byte.
abbrev pub Serves : ℕ → Folders → Type 0
Serves size f = IsValid f × (f.rpc_buffer_size ≡ size)

read_file-Reads :
    (e : Env) (handle size : ℕ)
    → io_size + 26 ≤ size
    → LeavesRoom e size
    → Reads (Serves size) (λ f. read_file e f handle)
read_file-Reads e handle size big room f pos n t (valid, same_size) le =
    let h : n + 26 ≤ f.rpc_buffer_size = omega arith in
    Returns-mono _ _ (read_file e f handle pos n t)
      (read_file-Returns e f valid (rw same_size room) handle pos n t h)
      (λ r t' q. grind (arith, q))

-- The hook ended within its fuel, its object is valid, and its count is at most `n`.
abbrev pub Stored : ℕ → Option (Returned ℕ) → Type 0
Stored n none = ⊥
Stored n (some r) = IsValid r.volume.folders × AtMost n r.out

-- With a valid object whose buffer has room for one chunk, and a host that announces no reply of just
-- the buffer's size, vmwfs_read ends within its fuel, whatever the host answers, without an access
-- outside the buffer; it stores a count of at most the bytes asked for, and the object stays valid.
pub vmwfs_read-Returns :
    (e : Env) (v : Volume) (handle pos n : ℕ) (t : Trace)
    → IsValid v.folders
    → io_size + 26 ≤ v.folders.rpc_buffer_size
    → LeavesRoom e v.folders.rpc_buffer_size
    → Returns (λ o t'. Stored n o) (vmwfs_read e v handle pos n t)
unfolding vmwfs_read
vmwfs_read-Returns e v handle pos n t valid big room = elim (Bool-cases (is_negative pos)) [
  | inl neg ↦ rw neg (valid, tt)
  | inr good ↦ rw good (
      Returns-bind (λ o t'. Finished (Serves v.folders.rpc_buffer_size) n o) (λ o t'. Stored n o)
        (read_loop (λ f. read_file e f handle) (n + 1) v.folders pos n 0) _ t
        (read_loop-Returns (Serves v.folders.rpc_buffer_size) (λ f. read_file e f handle)
          (read_file-Reads e handle v.folders.rpc_buffer_size big room) (n + 1) v.folders pos n 0 t
          (valid, refl) (omega arith) (omega arith))
        (λ o t' h. ground (arith, h)))
]

-- A host that takes 0 bytes of every write, and says that it succeeded.
abbrev Stalls : (Folders → ℕ → Bytes → M (Result ℕ)) → Type 0
Stalls write =
    (f : Folders) (pos : ℕ) (bytes : Bytes) (t : Trace)
    → Returns (λ r t'. (r.out ≡ some 0) × (r.status ≡ ok)) (write f pos bytes t)

-- If every write succeeds with 0 bytes taken, the loop of vmwfs_write ends with no fuel at all while
-- bytes are left: the hook does not return.
write_loop-Stalls :
    (write : Folders → ℕ → Bytes → M (Result ℕ)) (fuel : ℕ) (f : Folders) (pos : ℕ) (buffer : Bytes)
    (written : ℕ) (t : Trace)
    → Stalls write
    → written < length buffer
    → Returns (λ o t'. o ≡ none) (write_loop write fuel f ok pos buffer written t)
unfolding write_loop
write_loop-Stalls write zero f pos buffer written t stalls left = refl
write_loop-Stalls write (suc fuel) f pos buffer written t stalls left =
    go (write_loop-Stalls write fuel) _ (ground arith)
  where
    part : Bytes
    part = take (chunk (length buffer) written) (drop written buffer)

    go :
        ((g : Folders) (at : ℕ) (bs : Bytes) (k : ℕ) (u : Trace)
          → Stalls write
          → k < length bs
          → Returns (λ o _. o ≡ none) (write_loop write fuel g ok at bs k u))
        → (b : Bool) → b ≡ true
        → Returns
            (λ o _. o ≡ none)
            ((elim b as (λ _. M (Option Progress)) [
              | false ↦ pure (some (record { status = ok; count = written; folders = f }))
              | true ↦ do
                r ← write f ((pos + written) % 2 ^ 64) part
                write_loop write fuel r.folders r.status pos buffer
                    (written + out_or (chunk (length buffer) written) r.out)
            ])
              t)
    go rest false more = cc
    go rest true more =
        Returns-bind (λ r _. (r.out ≡ some 0) × (r.status ≡ ok)) (λ o _. o ≡ none)
          (write f ((pos + written) % 2 ^ 64) part)
          (λ r.
            write_loop write fuel r.folders r.status pos buffer
              (written + out_or (chunk (length buffer) written) r.out))
          t (stalls f _ part t)
          (λ r t' (taken, fine).
            rw taken (rw fine (rest r.folders pos buffer (written + 0) t' stalls (omega arith))))
