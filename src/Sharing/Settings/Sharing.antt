-- ===== src/Sharing/Settings/Sharing.antt =====
-- What SetBool of shared_sources/VMWAddOnsSettings.cpp stores, and what another object reads after it.
use vmware_addons.Base.{Bool, false, none, some, Bytes, ◌≡◌, ◌≢◌, ◌⊎◌, inl, inr, refl, ◌∙◌}
use vmware_addons.Machine.{ok, entry_not_found}
use vmware_addons.Sharing.Settings.{
  Storage, Settings, State, get_bool, open_settings, reload, set_bool, set_in,
}

-- What is documented of BMessage: a replaced Boolean is found and no other is touched, a name that is not
-- there is reported and nothing changes, and such a name can be added.
pub record IsMessage (s : Storage) : Type 0 where
  pub replaced :
      (m : s.Message) (name : Bytes) (v : Bool)
      → ((s.replace_bool m name v).0 ≡ entry_not_found)
          × ((s.replace_bool m name v).1 ≡ m)
          × (s.find_bool m name ≡ none)
        ⊎ ((s.replace_bool m name v).0 ≡ ok)
          × (s.find_bool ((s.replace_bool m name v).1) name ≡ some v)
          × ((other : Bytes)
              → other ≢ name
              → s.find_bool ((s.replace_bool m name v).1) other ≡ s.find_bool m other)
  pub added :
      (m : s.Message) (name : Bytes) (v : Bool)
      → s.find_bool m name ≡ none
      → (s.find_bool ((s.add_bool m name v).1) name ≡ some v)
        × ((other : Bytes)
            → other ≢ name
            → s.find_bool ((s.add_bool m name v).1) other ≡ s.find_bool m other)
  -- A message that was flattened into the file without an error is what Unflatten reads from it, when the
  -- file is opened again.
  pub stored :
      (m m' : s.Message) (file : s.File) (name : Bytes)
      → (s.flatten m file).0 ≡ ok
      → (s.set_to ((s.flatten m file).1)).0 ≡ ok
      → s.find_bool (s.unflatten ((s.set_to ((s.flatten m file).1)).1) m') name ≡ s.find_bool m name

module _ (s : Storage) (laws : IsMessage s) where
  set_in-find :
      (m : s.Message) (name : Bytes) (v : Bool)
      → (s.find_bool (set_in s m name v) name ≡ some v)
        × ((other : Bytes)
            → other ≢ name
            → s.find_bool (set_in s m name v) other ≡ s.find_bool m other)
  unfolding set_in
  set_in-find m name v = elim (laws.replaced m name v) [
    | inl (missing, same_, none_) ↦ rw (set_in, missing, same_) (laws.added m name v none_)
    | inr (found, new, rest) ↦ rw (set_in, found) (new, rest)
  ]

  get_bool-found :
      (o : Settings s) (name : Bytes) (v d : Bool)
      → s.find_bool o.message name ≡ some v
      → get_bool s o name d ≡ v
  unfolding get_bool
  get_bool-found o name v d h = rw (get_bool, h) refl

  get_bool-same :
      (o o' : Settings s) (name : Bytes) (d : Bool)
      → s.find_bool o.message name ≡ s.find_bool (o'.message) name
      → get_bool s o name d ≡ get_bool s o' name d
  unfolding get_bool
  get_bool-same o o' name d h = rw (get_bool, h) refl

  -- After SetBool the object itself gives the new value for the name and what it gave before for every
  -- other name, also where the file cannot be opened, and the file is closed.
  pub get_bool-set_bool :
      (st : State s) (name other : Bytes) (v d : Bool)
      → other ≢ name
      → (get_bool s ((set_bool s st name v).0) name d ≡ v)
        × (get_bool s ((set_bool s st name v).0) other d ≡ get_bool s (st.0) other d)
        × ((set_bool s st name v).0.opened ≡ false)
  unfolding set_bool open_settings
  get_bool-set_bool (o, file) name other v d ne =
      let (found, rest) = set_in-find o.message name v in
      (get_bool-found _ name v d found, get_bool-same _ _ other d (rest other ne), refl)

  -- For a BMessage that behaves as documented, that is, whose Unflatten reads what its Flatten has
  -- written without an error: if the settings file can be opened whatever is in it, and Flatten writes
  -- every message without an error, an object that reloads then gives the value that was set, and for
  -- every name what the object that set it gives.
  pub reload-set_bool :
      (mine theirs : Settings s) (file : s.File) (name other : Bytes) (v d : Bool)
      → ((g : s.File) → (s.set_to g).0 ≡ ok)
      → ((m : s.Message) (g : s.File) → (s.flatten m g).0 ≡ ok)
      → (get_bool s ((reload s (theirs, (set_bool s (mine, file) name v).1)).0) name d ≡ v)
        × (get_bool s ((reload s (theirs, (set_bool s (mine, file) name v).1)).0) other d
            ≡ get_bool s ((set_bool s (mine, file) name v).0) other d)
  unfolding set_bool reload open_settings
  reload-set_bool mine theirs file name other v d opens writes =
      let (found, rest) = set_in-find mine.message name v in
      let m : s.Message = set_in s mine.message name v in
      let g : s.File = (s.set_to file).1 in
      let again = opens ((s.flatten m g).1) in
      let read : (z : Bytes)
          → s.find_bool (s.unflatten ((s.set_to ((s.flatten m g).1)).1) theirs.message) z
            ≡ s.find_bool m z =
        λ z. laws.stored m theirs.message g z (writes m g) again in
      rw (opens file, again)
        (get_bool-found _ name v d (read name ∙ found), get_bool-same _ _ other d (read other))
