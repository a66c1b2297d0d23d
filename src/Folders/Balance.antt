-- ===== src/Folders/Balance.antt =====
-- The calls to the host and the memory allocated: they keep the number of live blocks.
use vmware_addons.Base.{ℕ, Bytes, List, arith}
use vmware_addons.Machine.{Env, Trace}
use vmware_addons.Backdoor.Rpc.{Reply}
use vmware_addons.Backdoor.Rpc.Balance.{Kept, send_and_get-Kept}
use vmware_addons.Folders.{Folders, Piece, exchange}
use vmware_addons.Folders.Dirs.{open_dir, read_dir, read_dir_answer}
use vmware_addons.Folders.Entries.{get_attributes, get_attributes_answer}

module _ (e : Env) (f : Folders) where
  exchange-Kept : (n : ℕ) (ps : List Piece) (t : Trace) → Kept t (exchange e f n ps t)
  unfolding exchange
  exchange-Kept n ps t = grind (arith, send_and_get-Kept)

  get_attributes_answer-Kept : (r : Reply) (t : Trace) → Kept t (get_attributes_answer e f r t)
  unfolding get_attributes_answer
  get_attributes_answer-Kept r t = ground arith

  pub get_attributes-Kept : (name : Bytes) (t : Trace) → Kept t (get_attributes e f name t)
  unfolding get_attributes
  get_attributes-Kept name t = grind (arith, exchange-Kept, get_attributes_answer-Kept)

  pub open_dir-Kept : (name : Bytes) (t : Trace) → Kept t (open_dir e f name t)
  unfolding open_dir
  open_dir-Kept name t = grind (arith, exchange-Kept)

  read_dir_answer-Kept :
      (n memory : ℕ) (r : Reply) (t : Trace) → Kept t (read_dir_answer e f n memory r t)
  unfolding read_dir_answer
  read_dir_answer-Kept n memory r t = ground arith

  pub read_dir-Kept :
      (handle index n memory : ℕ) (t : Trace) → Kept t (read_dir e f handle index n memory t)
  unfolding read_dir
  read_dir-Kept handle index n memory t = grind (arith, exchange-Kept, read_dir_answer-Kept)
