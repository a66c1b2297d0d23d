-- ===== src/Folders/Protocol.antt =====
-- The commands of vmware_fs/VMWSharedFolders.cpp, read back from their bytes by the fields that its
-- comments list: numbers with the lowest byte first, and a path as its length, its bytes with 0 for `/`,
-- and a 0, which the length does not count, although the comment of OpenFile says so.
use vmware_addons.Base.{
  ℕ, zero, suc, ◌%◌, ◌^◌, ◌≡◌, ◌<◌, refl, Bool, true, false, Option, none, some, Bytes, [], ◌∷◌,
  ◌++◌, ◌==◌, ◌&&◌, cond, ap, ◌∙◌, le_bytes, map, length, of_le_bytes, of_le_bytes-le_bytes,
  of_le_bytes-le_bytes_wide, arith,
}
use vmware_addons.Folders.{OpenMode, wire_char}
use vmware_addons.Folders.Safety.{command}
use vmware_addons.Folders.Files.{
  open_file_pieces, vmw_open_mode, write_file_pieces, read_file_pieces,
}
use vmware_addons.Folders.Entries.{move_pieces, delete_pieces}

-- What becomes of a file that there is, and of one that there is not: it is emptied, it is made where it
-- is missing, it is made and must have been missing, or it must be there.
pub data Disposition : Type 0 where
  truncate create create_new open_existing : Disposition

-- What a command asks for.
pub data Request : Type 0 where
  open_file : ℕ → Disposition → ℕ → Bytes → Request
  read_file : ℕ → ℕ → ℕ → Request
  write_file : ℕ → ℕ → Bytes → Request
  delete_file : Bytes → Request
  delete_dir : Bytes → Request
  move_file : Bytes → Bytes → Request

-- A path's characters, which end with a 0.
unfoldable pub characters : ℕ → Bytes → Option (Bytes × Bytes)
characters zero (c ∷ r) = elim (c == 0) [ true ↦ some ([], r) | false ↦ none ]
characters zero [] = none
characters (suc n) [] = none
characters (suc n) (c ∷ r) = elim (characters n r) [
  | none ↦ none
  | some (cs, rest) ↦ some (cond (c == 0) b'/' c ∷ cs, rest)
]

-- No character is the terminator.
abbrev pub AllSet : Bytes → Type 0
AllSet [] = Unit {0}
AllSet (c ∷ cs) = (0 < c) × AllSet cs

characters-path :
    (p rest : Bytes)
    → AllSet p
    → characters (length p) ((map wire_char p ++ (0 ∷ [])) ++ rest) ≡ some (p, rest)
unfolding characters
characters-path [] rest h = refl
characters-path (c ∷ cs) rest h = ground (arith, characters-path cs rest h.1)

abbrev of_4 : ℕ → ℕ → ℕ → ℕ → ℕ
of_4 a b c d = of_le_bytes (a ∷ b ∷ c ∷ d ∷ [])

abbrev counted : Bytes → Option (Bytes × Bytes)
counted (a ∷ b ∷ c ∷ d ∷ r) = characters (of_4 a b c d) r
counted _ = none

abbrev on_path : Option (Bytes × Bytes) → (Bytes → Request) → Option Request
on_path none k = none
on_path (some (p, rest)) k = some (k p)

abbrev on_paths : Option (Bytes × Bytes) → Option Request
on_paths none = none
on_paths (some (p, rest)) = on_path (counted rest) (move_file p)

abbrev disposition : ℕ → Option Disposition
disposition n = cond (n == 4) (some truncate) (
    cond (n == 3) (some create_new)
      (cond (n == 2) (some create) (cond (n == 0) (some open_existing) none)))

abbrev open_with : Option Disposition → Bytes → ℕ → ℕ → Option Request
open_with none r access perms = none
open_with (some d) r access perms = on_path (counted r) (open_file access d perms)

abbrev open_request : Bytes → Option Request
open_request (a ∷ b ∷ c ∷ d ∷ e ∷ f ∷ g ∷ h ∷ perms ∷ r) =
    open_with (disposition (of_4 e f g h)) r (of_4 a b c d) perms
open_request _ = none

abbrev read_request : Bytes → Option Request
read_request (a ∷ b ∷ c ∷ d ∷ e ∷ f ∷ g ∷ h ∷ i ∷ j ∷ k ∷ l ∷ m ∷ n ∷ o ∷ p ∷ []) =
    some
      (read_file (of_4 a b c d) (of_le_bytes (e ∷ f ∷ g ∷ h ∷ i ∷ j ∷ k ∷ l ∷ [])) (of_4 m n o p))
read_request _ = none

abbrev write_request : Bytes → Option Request
write_request (a ∷ b ∷ c ∷ d ∷ z ∷ e ∷ f ∷ g ∷ h ∷ i ∷ j ∷ k ∷ l ∷ m ∷ n ∷ o ∷ p ∷ r) =
    cond (of_4 m n o p == length r)
      (some (write_file (of_4 a b c d) (of_le_bytes (e ∷ f ∷ g ∷ h ∷ i ∷ j ∷ k ∷ l ∷ [])) r)) none
write_request _ = none

abbrev numbered : ℕ → Bytes → Option Request
numbered n r = cond (n == 0) (open_request r) (
    cond (n == 1) (read_request r) (
      cond (n == 2) (write_request r) (
        cond (n == 10) (on_path (counted r) delete_file) (
          cond (n == 11) (on_path (counted r) delete_dir)
            (cond (n == 12) (on_paths (counted r)) none)))))

-- What the host reads from a command: the start, `f`, a space and four 0, the number, and its fields.
unfoldable pub decode : Bytes → Option Request
decode (f ∷ s ∷ u ∷ v ∷ w ∷ x ∷ a ∷ b ∷ c ∷ d ∷ r) =
    cond (f == b'f' && s == b' ' && u == 0 && v == 0 && w == 0 && x == 0)
      (numbered (of_4 a b c d) r) none
decode _ = none

counted-path :
    (p rest : Bytes)
    → AllSet p
    → length p < 2 ^ 32
    → counted (le_bytes 4 (length p) ++ ((map wire_char p ++ (0 ∷ [])) ++ rest)) ≡ some (p, rest)
counted-path p rest h small =
    let e : of_le_bytes (le_bytes 4 (length p)) ≡ length p = omega arith in
    ap (λ n. characters n ((map wire_char p ++ (0 ∷ [])) ++ rest)) e ∙ characters-path p rest h

-- What the flags of an open mode ask for: O_TRUNC goes before O_CREAT, and O_EXCL counts with O_CREAT
-- alone.
abbrev pub asked_disposition : OpenMode → Disposition
asked_disposition m =
    cond m.trunc truncate (cond (m.creat && m.excl) create_new (cond m.creat create open_existing))

mode-le :
    (m : OpenMode)
    → disposition (of_le_bytes (le_bytes 4 (vmw_open_mode m))) ≡ some (asked_disposition m)
mode-le m = ground arith

-- OpenFile's command for a path without a 0, of less than 2 ^ 32 bytes, reads back as its access mode
-- modulo 2 ^ 32, what its flags ask for, the permissions 6 and its path.
pub decode-open_file :
    (name : Bytes) (m : OpenMode)
    → AllSet name
    → length name < 2 ^ 32
    → decode (command (open_file_pieces name m))
      ≡ some (open_file (m.access % 2 ^ 32) (asked_disposition m) 6 name)
unfolding decode
decode-open_file name m h small =
    ap
      (λ d.
        open_with d (le_bytes 4 (length name) ++ (map wire_char name ++ (0 ∷ [])) ++ [])
          (of_le_bytes (le_bytes 4 m.access)) 6)
      (mode-le m)
    ∙ (ap (λ o. on_path o (open_file (of_le_bytes (le_bytes 4 m.access)) (asked_disposition m) 6))
          (counted-path name [] h small)
        ∙ ap (λ a. some (open_file a (asked_disposition m) 6 name)) (of_le_bytes-le_bytes m.access))

-- ReadFile's command reads back as its handle, offset and length, modulo their widths.
pub decode-read_file :
    (handle offset n : ℕ)
    → decode (command (read_file_pieces handle offset n))
      ≡ some (read_file (handle % 2 ^ 32) (offset % 2 ^ 64) (n % 2 ^ 32))
unfolding decode
decode-read_file handle offset n =
    ap (λ a. some (read_file a (of_le_bytes (le_bytes 8 offset)) (of_le_bytes (le_bytes 4 n))))
      (of_le_bytes-le_bytes handle)
    ∙ (ap (λ a. some (read_file (handle % 2 ^ 32) a (of_le_bytes (le_bytes 4 n))))
          (of_le_bytes-le_bytes_wide offset)
        ∙ ap (λ a. some (read_file (handle % 2 ^ 32) (offset % 2 ^ 64) a)) (of_le_bytes-le_bytes n))

-- WriteFile's command, for less than 2 ^ 32 bytes, reads back as its handle and offset, modulo their
-- widths, and its bytes.
pub decode-write_file :
    (handle offset : ℕ) (bytes : Bytes)
    → length bytes < 2 ^ 32
    → decode (command (write_file_pieces handle offset (length bytes)) ++ bytes)
      ≡ some (write_file (handle % 2 ^ 32) (offset % 2 ^ 64) bytes)
unfolding decode
decode-write_file handle offset bytes small =
    let whole : of_le_bytes (le_bytes 4 (length bytes)) ≡ length bytes = omega arith in
    let a = of_le_bytes-le_bytes handle in
    let b = of_le_bytes-le_bytes_wide offset in ground (arith, whole, a, b)

-- Delete's command for a path without a 0, of less than 2 ^ 32 bytes, reads back as the deletion of
-- that directory or file.
pub decode-delete :
    (name : Bytes) (is_dir : Bool)
    → AllSet name
    → length name < 2 ^ 32
    → decode (command (delete_pieces name is_dir))
      ≡ some (cond is_dir (delete_dir name) (delete_file name))
unfolding decode
decode-delete name true h small = ap (λ o. on_path o delete_dir) (counted-path name [] h small)
decode-delete name false h small = ap (λ o. on_path o delete_file) (counted-path name [] h small)

-- Move's command for two paths without a 0, of less than 2 ^ 32 bytes, reads back as the move from the
-- first to the second.
pub decode-move :
    (from to : Bytes)
    → AllSet from
    → AllSet to
    → length from < 2 ^ 32
    → length to < 2 ^ 32
    → decode (command (move_pieces from to)) ≡ some (move_file from to)
unfolding decode
decode-move from to h k small small_to =
    ap on_paths (counted-path from _ h small)
    ∙ ap (λ o. on_path o (move_file from)) (counted-path to [] k small_to)
