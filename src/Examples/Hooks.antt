-- ===== src/Examples/Hooks.antt =====
-- Examples of the file system's tree and hooks.
use vmware_addons.Base.{
  ℕ, ◌≡◌, ◌⊎◌, refl, true, false, Bytes, [], ◌∷◌, some, arith, is_some, same, cond, ltb, ◌==◌,
}
use vmware_addons.Machine.{Env}
use vmware_addons.Machine.Laws.{Returns}
use vmware_addons.Node.{node, end, item, Tree, leaf, get_child, find, copy_path_to, named}
use vmware_addons.Node.Paths.{copy_path_to-join, join, resolve, fitting}
use vmware_addons.Node.Inodes.{uses, IsNumbered, get_child-IsNumbered}
use vmware_addons.Node.Lookup.{get_child_again}
use vmware_addons.Fs.{Volume}
use vmware_addons.Fs.Files.{vmwfs_read}
use vmware_addons.Fs.Loops.{vmwfs_read-Returns, Stored}
use vmware_addons.Fs.Vnodes.{Rights, Stat, stat_of, attributes_of}
use vmware_addons.Fs.Stats.{Shows, stat_of-attributes_of}
use vmware_addons.Fs.Dirs.{DirCookie, vmwfs_read_dir}
use vmware_addons.Fs.Entries.{Served, vmwfs_read_dir-Returns}
use vmware_addons.Backdoor.{rpc_get_length, rpc_get_l_ok}
use vmware_addons.Backdoor.Rpc.Safety.{LeavesRoom}
use vmware_addons.Examples.{answer, blank, host, host-LeavesRoom, mounted, mounted-IsValid}

abbrev docs : Bytes
docs = b'd' ∷ b'o' ∷ b'c' ∷ b's' ∷ []

abbrev notes : Bytes
notes = b'n' ∷ b'o' ∷ b't' ∷ b'e' ∷ b's' ∷ []

abbrev tree : Tree
tree = record {
  root = node 0 [] (item (node 1 docs (item (leaf 2 notes) end)) end);
  next_inode = 3;
}

abbrev volume : ℕ → Volume
volume count = record {
  folders = mounted 4123;
  tree = tree;
  mount_count = count;
  device_id = 9;
  last_notification = 0;
}

tree-IsNumbered : IsNumbered tree
unfolding uses
tree-IsNumbered = record { once = λ k. ground arith; fresh = λ k h. ground arith }

copy_path_to_example :
    copy_path_to (docs ∷ []) 20 (some notes) ≡ fitting 20 (join (resolve (docs ∷ []) (some notes)))
copy_path_to_example = copy_path_to-join (docs ∷ []) 20 (some notes) (omega arith, tt) (omega arith)

get_child_example : IsNumbered (get_child tree 1 docs true).1
get_child_example = get_child-IsNumbered tree 1 docs true tree-IsNumbered

get_child_again_example :
    let t' = (get_child tree 1 docs true).1 in
    (get_child t' 1 docs false ≡ (some 3, t'))
    × ((t'.next_inode ≡ 3) ⊎ (is_some (find 3 t'.root) ≡ true))
unfolding get_child uses find same named
get_child_again_example =
    get_child_again tree 1 docs true false 3 tree-IsNumbered (ground arith) refl

vmwfs_read_example : Returns (λ o t'. Stored 5000 o) (vmwfs_read host (volume 1) 7 100 5000 [])
vmwfs_read_example =
    vmwfs_read-Returns host (volume 1) 7 100 5000 [] (mounted-IsValid 4123) (omega arith)
      (host-LeavesRoom 4123 (ground arith) (ground arith) (ground arith))

-- A host that answers with 62 bytes, which end in the name of an entry.
abbrev lister : Env
lister = record host {
  port_in_answer = λ t c.
      cond (c.ecx == rpc_get_length) (record blank { ebx = 62; ecx = rpc_get_l_ok }) (answer c.ecx);
  byte_answer = λ t c i. cond (i == 0) b'1' (cond (i == 55) 3 (cond (ltb 58 i) b'a' 0));
}

lister-LeavesRoom : LeavesRoom lister 4123
lister-LeavesRoom t regs = ground arith

abbrev listing : DirCookie
listing = record { handle = 7; index = 4294967295 }

vmwfs_read_dir-Returns_example :
    Returns (Served (volume 1) listing []) (vmwfs_read_dir lister 26 26 (volume 1) 1 listing 280 [])
vmwfs_read_dir-Returns_example =
    vmwfs_read_dir-Returns lister 26 26 (omega arith) (λ t n. refl) (volume 1) 1 listing 280 []
      (mounted-IsValid 4123) lister-LeavesRoom (omega arith) (omega arith) (omega arith)

abbrev rights : Rights
rights = record { readable = true; writable = true; executable = false }

abbrev stat : Stat
stat = record {
  mode = record {
    user = rights;
    group = record rights { readable = false };
    others = record rights { readable = false };
    directory = false;
  };
  device = 9;
  inode = 2;
  size = 513;
  blocks = 2;
  block_size = 512;
  cr_time = 1700000000;
  a_time = 1700000000;
  m_time = 1700000000;
  c_time = 1700000000;
}

stat_of-attributes_of_example : Shows stat (stat_of 9 2 (attributes_of stat) false)
stat_of-attributes_of_example =
    stat_of-attributes_of 9 2 stat (omega arith, omega arith, omega arith, omega arith)
