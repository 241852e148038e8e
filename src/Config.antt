-- ===== src/Config.antt =====
-- buster/config.py: the configuration, a tree of JSON objects, and the reads and writes by dotted keys.
-- `A` is the type of the values that are no object. A dotted key is the list of its parts, split at the
-- dots, and is given as the parts before the last one and the last. The file is what `save` wrote last.
pub mod Nested
mod Tests
use aioperator.Prelude.{
  Bool, true, false, Option, none, some, List, [], ◌∷◌, ◌++◌, String, str_eq, if◌then◌else◌, get_or,
}

mutual
  pub data Json (A : Type 0) : Type 0 where
    atom : A → Json A
    object : Fields A → Json A

  pub data Fields (A : Type 0) : Type 0 where
    empty : Fields A
    field : String → Json A → Fields A → Fields A

pub record Config (A : Type 0) : Type 0 where
  pub install_path : A
  pub fields : Fields A
  pub file : Option (Fields A)

abbrev pub first_part : List String → String → String
first_part [] last = last
first_part (part ∷ parts) last = part

module _ {A : Type 0} where
  -- `d.get(k)` and `d[k] = v` on an object.
  unfoldable pub get_field : String → Fields A → Option (Json A)
  get_field k empty = none
  get_field k (field j v fs) = let rest = get_field k fs in if str_eq j k then some v else rest

  unfoldable pub put_field : String → Json A → Fields A → Fields A
  put_field k v empty = field k v empty
  put_field k v (field j w fs) =
      let rest = put_field k v fs in if str_eq j k then field j v fs else field j w rest

  unfoldable pub save : Config A → Config A
  unfolding put_field
  save c =
      let fs = put_field "install_path" (atom c.install_path) c.fields in
      record c { fields = fs; file = some fs }

  unfoldable pub get : String → Json A → Config A → Json A
  unfolding get_field
  get key default c = get_or (get_field key c.fields) default

  unfoldable pub set : String → Json A → Config A → Config A
  unfolding save put_field
  set key value c =
      let value' : Json A = if str_eq key "install_path" then atom c.install_path else value in
      save (record c { fields = put_field key value' c.fields })

  -- The loop of `get_nested`: `none` is the default.
  unfoldable pub get_path : List String → Json A → Option (Json A)
  get_path [] node = some node
  get_path (part ∷ parts) (atom a) = none
  get_path (part ∷ parts) (object fs) = elim (get_field part fs) [
    | none ↦ none
    | some node ↦ get_path parts node
  ]

  unfoldable pub get_nested : List String → Json A → Config A → Json A
  unfolding get_path
  get_nested parts default c = get_or (get_path parts (object c.fields)) default

  -- The loop of `set_nested` and its assignment: `none` is the exception that a part that is no object
  -- raises. It is raised before anything was written.
  unfoldable pub set_path : List String → String → Json A → Json A → Option (Fields A)
  set_path parts last value (atom a) = none
  set_path [] last value (object fs) = some (put_field last value fs)
  set_path (part ∷ parts) last value (object fs) =
      elim (set_path parts last value (get_or (get_field part fs) (object empty))) [
        | none ↦ none
        | some inner ↦ some (put_field part (object inner) fs)
      ]

  unfoldable pub set_nested : List String → String → Json A → Config A → Option (Config A)
  unfolding set_path save
  set_nested parts last value c =
      let value' : Json A =
        if str_eq (first_part parts last) "install_path" then atom c.install_path else value in
      elim (set_path parts last value' (object c.fields)) [
        | none ↦ none
        | some fs ↦ some (save (record c { fields = fs }))
      ]
