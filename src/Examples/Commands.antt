-- ===== src/Examples/Commands.antt =====
-- Examples of the commands to the host, read back.
use vmware_addons.Base.{◌≡◌, Bytes, [], ◌∷◌, some, arith}
use vmware_addons.Folders.Protocol
use vmware_addons.Folders.Decoding.{decode-message_of}
use vmware_addons.Folders.Sessions.{message_of, moves}
use vmware_addons.Folders.Protocol.{
  AllSet, decode, decode-open_file, decode-read_file, decode-write_file, decode-delete, decode-move,
}

abbrev docs : Bytes
docs = b'd' ∷ b'/' ∷ b'c' ∷ []

docs-AllSet : AllSet docs
docs-AllSet = (omega arith, (omega arith, (omega arith, tt)))

decode-message_of_example :
    decode (message_of (moves docs docs)) ≡ some (Protocol.move_file docs docs)
decode-message_of_example =
    decode-message_of (moves docs docs) ((docs-AllSet, omega arith), (docs-AllSet, omega arith))
