-- ===== src/Node/Paths.antt =====
-- CopyPathTo against the path that it stands for: the names from the root on, joined by slashes.
use vmware_addons.Base.{
  ℕ, ◌≡◌, ◌≤◌, ◌<◌, refl, ap, ◌∙◌, sym, ◌||◌, Option, none, some, Bytes, ltb, if◌then◌else◌, length,
  List, [], ◌∷◌, ◌++◌, same, arith, length-append, append_assoc, append-nil,
}
use vmware_addons.Node.{dot, dot_dot, slash, path_tail, extend_path, copy_path_to}

abbrev pub join : List Bytes → Bytes
join [] = []
join (x ∷ []) = x
join (x ∷ (y ∷ r)) = x ++ (slash ++ join (y ∷ r))

-- The components from the root on of a node given by its names upwards.
abbrev pub downward : List Bytes → List Bytes
downward [] = []
downward (name ∷ parents) = downward parents ++ (name ∷ [])

-- The components that `to_append` leads to: "." and nothing stay, ".." goes up, and at the root the
-- empty name stays.
abbrev pub resolve : List Bytes → Option Bytes → List Bytes
resolve names none = downward names
resolve [] (some extra) =
    if same extra [] || same extra dot || same extra dot_dot then [] else extra ∷ []
resolve (name ∷ parents) (some extra) =
    if same extra dot_dot
    then downward parents
    else if same extra dot
    then downward (name ∷ parents)
    else downward (name ∷ parents) ++ (extra ∷ [])

-- No name is empty.
abbrev pub AllNamed : List Bytes → Type 0
AllNamed [] = Unit {0}
AllNamed (x ∷ xs) = (0 < length x) × AllNamed xs

-- A string that fits with its terminator, and its length.
abbrev pub fitting : ℕ → Bytes → Option (ℕ × Bytes)
fitting n text = if ltb (length text) n then some (length text, text) else none

length-join_pos : (x : Bytes) (xs : List Bytes) → 0 < length x → 0 < length (join (x ∷ xs))
length-join_pos x [] h = h
length-join_pos x (y ∷ r) h = omega (arith, length-append x (slash ++ join (y ∷ r)))

-- Joining one more component.
join-append :
    (x : Bytes) (xs : List Bytes) (y : Bytes)
    → join ((x ∷ xs) ++ (y ∷ [])) ≡ join (x ∷ xs) ++ (slash ++ y)
join-append x [] y = refl
join-append x (z ∷ r) y =
    rw (join-append z r y) (sym (append_assoc x (slash ++ join (z ∷ r)) (slash ++ y)))

join-last :
    (xs : List Bytes) (y : Bytes)
    → AllNamed xs
    → join (xs ++ (y ∷ [])) ≡ (if ltb 0 (length (join xs)) then join xs ++ (slash ++ y) else y)
join-last [] y a = refl
join-last (x ∷ xs) y a = ground (arith, join-append x xs y, length-join_pos x xs a.0)

AllNamed-append :
    (xs : List Bytes) (y : Bytes) → AllNamed xs → 0 < length y → AllNamed (xs ++ (y ∷ []))
AllNamed-append [] y a h = (h, tt)
AllNamed-append (x ∷ xs) y a h = (a.0, AllNamed-append xs y a.1 h)

AllNamed-downward : (names : List Bytes) → AllNamed names → AllNamed (downward names)
AllNamed-downward [] a = tt
AllNamed-downward (x ∷ xs) a = AllNamed-append (downward xs) x (AllNamed-downward xs a.1) a.0

-- One step of CopyPathTo, on a path that fits so far.
extend_path-fitting :
    (n : ℕ) (text name : Bytes) (extra : Option Bytes)
    → extend_path n (length text) text name extra
      ≡ fitting n (
          if ltb 0 (length text)
          then text ++ (slash ++ (name ++ path_tail extra))
          else name ++ path_tail extra)
unfolding extend_path
extend_path-fitting n [] name extra = ground (arith, length-append name (path_tail extra))
extend_path-fitting n (c ∷ text) name extra = ground (
  arith,
  length-append name (path_tail extra),
  length-append text (slash ++ (name ++ path_tail extra)),
)

extend_path-join :
    (n : ℕ) (xs : List Bytes) (name : Bytes)
    → AllNamed xs
    → extend_path n (length (join xs)) (join xs) name none ≡ fitting n (join (xs ++ (name ∷ [])))
extend_path-join n xs name a =
    extend_path-fitting n (join xs) name none
    ∙ ap (fitting n) (ground (arith, join-last xs name a, append-nil name))

extend_path-join_extra :
    (n : ℕ) (xs : List Bytes) (name extra : Bytes)
    → AllNamed xs
    → 0 < length name
    → extend_path n (length (join xs)) (join xs) name (some extra)
      ≡ fitting n (join ((xs ++ (name ∷ [])) ++ (extra ∷ [])))
extend_path-join_extra n xs name extra a h =
    extend_path-fitting n (join xs) name (some extra)
    ∙ ap (fitting n) (
        ground (
          arith,
          join-last xs name a,
          join-last (xs ++ (name ∷ [])) extra (AllNamed-append xs name a h),
          append_assoc (join xs) (slash ++ name) (slash ++ extra),
          length-append (join xs) (slash ++ name),
        ))

join-le :
    (xs : List Bytes) (y : Bytes) → AllNamed xs → length (join xs) ≤ length (join (xs ++ (y ∷ [])))
join-le xs y a = ground (arith, join-last xs y a, length-append (join xs) (slash ++ y))

copy_path_to-own :
    (names : List Bytes) (n : ℕ)
    → AllNamed names
    → 0 < n
    → copy_path_to names n none ≡ fitting n (join (downward names))
unfolding copy_path_to
copy_path_to-own [] n a h = ground arith
copy_path_to-own (name ∷ parents) n a h = ground (
  arith,
  copy_path_to-own parents n a.1 h,
  extend_path-join n (downward parents) name (AllNamed-downward parents a.1),
  join-le (downward parents) name (AllNamed-downward parents a.1),
)

-- CopyPathTo gives the path of the components that the name leads to, with its length, if it fits
-- with its terminator, and -1 if not.
pub copy_path_to-join :
    (names : List Bytes) (n : ℕ) (to_append : Option Bytes)
    → AllNamed names
    → 0 < n
    → copy_path_to names n to_append ≡ fitting n (join (resolve names to_append))
unfolding copy_path_to
copy_path_to-join names n none a h = copy_path_to-own names n a h
copy_path_to-join [] n (some extra) a h = ground arith
copy_path_to-join (name ∷ parents) n (some extra) a h = ground (
  arith,
  copy_path_to-own parents n a.1 h,
  extend_path-join n (downward parents) name (AllNamed-downward parents a.1),
  extend_path-join_extra n (downward parents) name extra (AllNamed-downward parents a.1) a.0,
  join-le (downward parents) name (AllNamed-downward parents a.1),
  join-le (downward parents ++ (name ∷ [])) extra
      (AllNamed-append (downward parents) name (AllNamed-downward parents a.1) a.0),
)
