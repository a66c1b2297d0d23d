-- ===== src/Folders/Command.antt =====
-- What a list of build steps puts into the command buffer: the bytes of the command, in order, and
-- nothing outside the buffer.
use vmware_addons.Base.{
  ℕ, ◌+◌, ◌-◌, ◌≡◌, ◌≤◌, Option, some, Bytes, List, [], ◌∷◌, ◌++◌, map, length, drop, le_bytes,
  arith, append_assoc, length-append, length-drop, length-map, write_at-append, append-nil,
}
use vmware_addons.Folders.{
  Piece, set_8, set_32, set_64, copy, path, clear_32, wire_char, copy_path, put, put_bytes, put_all,
}

-- The bytes that a step leaves behind it. A path has a 0 for each `/` and one at its end.
abbrev pub piece_bytes : Piece → Bytes
piece_bytes (set_8 v) = le_bytes 1 v
piece_bytes (set_32 v) = le_bytes 4 v
piece_bytes (set_64 v) = le_bytes 8 v
piece_bytes (copy bs) = bs
piece_bytes (path p) = map wire_char p ++ (0 ∷ [])
piece_bytes clear_32 = []

-- How far behind `pos` a step writes.
abbrev pub reach : Piece → ℕ
reach clear_32 = 4
reach (set_8 v) = 1
reach (set_32 v) = 4
reach (set_64 v) = 8
reach (copy bs) = length bs
reach (path p) = length p + 1

abbrev pub message : List Piece → Bytes
message [] = []
message (p ∷ ps) = piece_bytes p ++ message ps

abbrev pub Fits : List Piece → ℕ → Type 0
Fits [] room = Unit {0}
Fits (p ∷ ps) room = (reach p ≤ room) × Fits ps (room - length (piece_bytes p))

-- After a build: the message so far, something behind it, the buffer's size, and `pos`.
abbrev pub Built : Bytes → ℕ → Option (Bytes × ℕ) → Type 0
Built msg room r = (rest : Bytes) × (r ≡ some (msg ++ rest, length msg)) × (length rest ≡ room)

pub length_path : (p : Bytes) → length (map wire_char p ++ (0 ∷ [])) ≡ length p + 1
length_path p = omega (arith, length-append (map wire_char p) (0 ∷ []), length-map p wire_char)

copy_path-Built :
    (msg rest p : Bytes)
    → length p + 1 ≤ length rest
    → Built
        (msg ++ (map wire_char p ++ (0 ∷ [])))
        (length rest - (length p + 1))
        (copy_path (msg ++ rest) (length msg) p)
unfolding copy_path
copy_path-Built msg rest [] h = (
  drop 1 rest,
  ground (arith, write_at-append msg (0 ∷ []) rest, length-append msg (0 ∷ [])),
  length-drop 1 rest,
)
copy_path-Built msg rest (c ∷ cs) h =
    let (r, e, l) =
      copy_path-Built (msg ++ (wire_char c ∷ [])) (drop 1 rest) cs
        (omega (arith, length-drop 1 rest)) in
    (
      r,
      ground (
        arith,
        e,
        write_at-append msg (wire_char c ∷ []) rest,
        length-append msg (wire_char c ∷ []),
        append_assoc msg (wire_char c ∷ []) (map wire_char cs ++ (0 ∷ [])),
      ),
      omega (arith, l, length-drop 1 rest),
    )

put_bytes-Built :
    (msg rest bs : Bytes)
    → length bs ≤ length rest
    → Built (msg ++ bs) (length rest - length bs) (put_bytes (msg ++ rest) (length msg) bs)
put_bytes-Built msg rest bs h = (
  drop (length bs) rest,
  ground (arith, write_at-append msg bs rest, length-append msg bs),
  length-drop (length bs) rest,
)

pub put-Built :
    (msg rest : Bytes) (p : Piece)
    → reach p ≤ length rest
    → Built
        (msg ++ piece_bytes p)
        (length rest - length (piece_bytes p))
        (put (msg ++ rest) (length msg) p)
unfolding put
put-Built msg rest (set_8 v) h = put_bytes-Built msg rest (le_bytes 1 v) h
put-Built msg rest (set_32 v) h = put_bytes-Built msg rest (le_bytes 4 v) h
put-Built msg rest (set_64 v) h = put_bytes-Built msg rest (le_bytes 8 v) h
put-Built msg rest (copy bs) h = put_bytes-Built msg rest bs h
put-Built msg rest (path p) h =
    let (r, e, l) = copy_path-Built msg rest p h in (r, e, omega (arith, l, length_path p))
put-Built msg rest clear_32 h = (
  le_bytes 4 0 ++ drop 4 rest,
  ground (
    arith,
    write_at-append msg (le_bytes 4 0) rest,
    append_assoc msg (le_bytes 4 0) (drop 4 rest),
    append-nil msg,
  ),
  omega (arith, length-drop 4 rest, length-append (le_bytes 4 0) (drop 4 rest)),
)

-- The steps leave the message that they spell, and `pos` at its end.
pub put_all-Built :
    (msg rest : Bytes) (ps : List Piece)
    → Fits ps (length rest)
    → Built
        (msg ++ message ps)
        (length rest - length (message ps))
        (put_all (msg ++ rest) (length msg) ps)
unfolding put_all
put_all-Built msg rest [] h = (rest, ground (arith, append-nil msg), omega arith)
put_all-Built msg rest (p ∷ ps) h =
    let (r, e, l) = put-Built msg rest p h.0 in
    let (r', e', l') = put_all-Built (msg ++ piece_bytes p) r ps (rw l h.1) in
    (
      r',
      ground (arith, e, e', append_assoc msg (piece_bytes p) (message ps)),
      omega (arith, l, l', length-append (piece_bytes p) (message ps)),
    )

piece_bytes-le-reach : (p : Piece) → length (piece_bytes p) ≤ reach p
piece_bytes-le-reach (set_8 v) = omega arith
piece_bytes-le-reach (set_32 v) = omega arith
piece_bytes-le-reach (set_64 v) = omega arith
piece_bytes-le-reach (copy bs) = omega arith
piece_bytes-le-reach (path p) = omega (arith, length_path p)
piece_bytes-le-reach clear_32 = omega arith

-- What fits is no longer than the room for it.
pub message-le-room : (ps : List Piece) (room : ℕ) → Fits ps room → length (message ps) ≤ room
message-le-room [] room h = omega arith
message-le-room (p ∷ ps) room h = omega (
  arith,
  length-append (piece_bytes p) (message ps),
  message-le-room ps (room - length (piece_bytes p)) h.1,
  piece_bytes-le-reach p,
)
