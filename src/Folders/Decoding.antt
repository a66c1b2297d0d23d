-- ===== src/Folders/Decoding.antt =====
-- The messages of the calls of vmware_fs/VMWSharedFolders.cpp, read back field by field.
use vmware_addons.Base.{◌%◌, ◌^◌, ◌<◌, ◌≡◌, Bytes, Option, none, some, length, cond}
use vmware_addons.Folders.Protocol
use vmware_addons.Folders.Protocol.{
  AllSet, Request, asked_disposition, decode, decode-delete, decode-move, decode-open_file,
  decode-read_file, decode-write_file,
}
use vmware_addons.Folders.Sessions.{
  Call, closes_dir, closes_file, creates_dir, deletes, gets_attributes, message_of, moves,
  opens_dir, opens_file, reads_dir, reads_file, sets_attributes, writes_file,
}

-- A path that the command can carry: no 0 in it, and a length of 4 bytes.
abbrev pub IsPath : Bytes → Type 0
IsPath name = AllSet name × (length name < 2 ^ 32)

-- The calls that are read back, with what they can carry.
abbrev pub IsCarried : Call → Type 0
IsCarried (opens_file name m) = IsPath name
IsCarried (reads_file handle offset n) = Unit {0}
IsCarried (writes_file handle offset bytes) = length bytes < 2 ^ 32
IsCarried (deletes name is_dir) = IsPath name
IsCarried (moves from to) = IsPath from × IsPath to
IsCarried _ = ⊥

-- What the host is asked for by a call; numbers are cut to their widths.
abbrev pub asked_by : Call → Option Request
asked_by (opens_file name m) =
    some (Protocol.open_file (m.access % 2 ^ 32) (asked_disposition m) 6 name)
asked_by (reads_file handle offset n) =
    some (Protocol.read_file (handle % 2 ^ 32) (offset % 2 ^ 64) (n % 2 ^ 32))
asked_by (writes_file handle offset bytes) =
    some (Protocol.write_file (handle % 2 ^ 32) (offset % 2 ^ 64) bytes)
asked_by (deletes name is_dir) =
    some (cond is_dir (Protocol.delete_dir name) (Protocol.delete_file name))
asked_by (moves from to) = some (Protocol.move_file from to)
asked_by _ = none

-- The command of OpenFile, ReadFile, WriteFile, Delete or Move, for paths without a 0 and less than 2 ^ 32
-- bytes of a path or of data, starts with the magic value and reads back as what was asked for: OpenFile
-- with what its flags say of a file that there is or is not and the permissions 6, numbers modulo their
-- widths, and the length of a path without the 0 that ends it.
pub decode-message_of : (c : Call) → IsCarried c → decode (message_of c) ≡ asked_by c
decode-message_of (opens_file name m) (set, small) = decode-open_file name m set small
decode-message_of (reads_file handle offset n) h = decode-read_file handle offset n
decode-message_of (writes_file handle offset bytes) h = decode-write_file handle offset bytes h
decode-message_of (deletes name is_dir) (set, small) = decode-delete name is_dir set small
decode-message_of (moves from to) ((set, small), (set', small')) =
    decode-move from to set set' small small'
decode-message_of (closes_file handle) h = absurd h
decode-message_of (opens_dir name) h = absurd h
decode-message_of (reads_dir handle index n memory) h = absurd h
decode-message_of (closes_dir handle) h = absurd h
decode-message_of (creates_dir name mode) h = absurd h
decode-message_of (gets_attributes name) h = absurd h
decode-message_of (sets_attributes name a mask) h = absurd h
