-- ===== src/Osbuild/Index.antt =====
-- buster/osbuild/packages.py: the index of the packages of a repository. `int` is Python's, `none` for a
-- ValueError; a result of `none` is that error on its way out.
pub mod Stanzas
mod Tests
use aioperator.Prelude.{
  ℕ, Bool, true, false, not, ◌||◌, Option, none, some, List, [], ◌∷◌, ◌++◌, String, codes,
  if◌then◌else◌, ◌==◌, get_or, ℤ,
}
use aioperator.Prelude.Strings.{
  Text, strip, rstrip_by, is_empty, contains, partition, split_on, join, splitlines, lower_ascii,
  has_prefix,
}
use aioperator.Dict.{text_eq, Dict, get, put}
use aioperator.Osbuild.Control.{Fields, is_indented}

pub record PackageRecord : Type 0 where
  pub package_name : Text
  pub version : Text
  pub architecture : Text
  pub section_name : Text
  pub depends : Text
  pub pre_depends : Text
  pub provides : Text
  pub filename : Text
  pub size : ℤ
  pub md5sum : Text
  pub sha256 : Text
  pub priority : Text
  pub essential : Bool

-- `[t.strip() for t in ts if t.strip()]`
abbrev pub strip_all : List Text → List Text
strip_all [] = []
strip_all (t ∷ ts) = let rest = strip_all ts in if is_empty (strip t) then rest else strip t ∷ rest

unfoldable pub norm : Text → List Text
unfolding split_on
norm dep_str = strip_all (split_on b',' dep_str)

-- `stanza.get(key, default)`
abbrev pub field_or : String → String → Fields → Text
field_or key default stanza = get_or (get (codes key) stanza) (codes default)

-- `s.split(c)[0]`
abbrev pub before : ℕ → Text → Text
before c s = (partition c s).0

abbrev provided : List Text → List Text
provided [] = []
provided (chunk ∷ chunks) =
    let rest = provided chunks in
    let name = strip (before b'(' (before b' ' (strip chunk))) in
    if is_empty name then rest else name ∷ rest

unfoldable pub provides_names : PackageRecord → List Text
unfolding split_on partition
provides_names r = provided (split_on b',' r.provides)

-- The variables of `parse_packages`.
pub record Reading : Type 0 where
  pub records : List PackageRecord
  pub stanza : Fields
  pub current_field : Option Text

-- `stanza[current_field] += " " + text`, where the field is there.
abbrev pub extend : Text → Option Text → Fields → Fields
extend text none stanza = stanza
extend text (some k) stanza = elim (get k stanza) [
  | none ↦ stanza
  | some v ↦ put k (v ++ b' ' ∷ text) stanza
]

-- `current_field and current_field in stanza`: the name of a field is no condition when it is empty.
abbrev pub given : Option Text → Option Text
given none = none
given (some k) = if is_empty k then none else some k

-- `flush()` in the loop.
abbrev pub flushed : Option (List PackageRecord) → Reading → Option Reading
flushed none r = none
flushed (some new) r =
    some (record { records = r.records ++ new; stanza = []; current_field = none })

abbrev pub records_of : Option Reading → Option (List PackageRecord)
records_of none = none
records_of (some r) = some r.records

unfoldable pub set_field : Text → Reading → Reading
unfolding partition
set_field line r =
    let (field, value) = partition b':' line in
    record r {
      stanza = put (strip field) (strip value) r.stanza;
      current_field = some (strip field);
    }

module _ (int : Text → Option ℤ) where
  -- `int(stanza.get("Size", "0") or 0)`
  abbrev pub size_in : Fields → Option ℤ
  size_in stanza =
      let text = field_or "Size" "0" stanza in if is_empty text then some (ℤ.pos 0) else int text

  unfoldable pub record_from_stanza : Text → Fields → Option PackageRecord
  unfolding norm
  record_from_stanza name stanza =
      let pre = field_or "Pre-Depends" "" stanza in
      elim (size_in stanza) [
        | none ↦ none
        | some size ↦ some (record {
          package_name = name;
          version = field_or "Version" "0" stanza;
          architecture = field_or "Architecture" "all" stanza;
          section_name = field_or "Section" "" stanza;
          depends = join (codes ", ") (norm (field_or "Depends" "" stanza) ++ norm pre);
          pre_depends = pre;
          provides = field_or "Provides" "" stanza;
          filename = field_or "Filename" "" stanza;
          size = size;
          md5sum = field_or "MD5sum" "" stanza;
          sha256 = field_or "SHA256" "" stanza;
          priority = field_or "Priority" "optional" stanza;
          essential = has_prefix (codes "yes") (lower_ascii (field_or "Essential" "no" stanza));
        })
      ]

  -- The records of a stanza: one, or none when it has no package name.
  unfoldable pub flush : Fields → Option (List PackageRecord)
  unfolding record_from_stanza
  flush stanza = elim (get (codes "Package") stanza) [
    | none ↦ some []
    | some name ↦
        if is_empty name
        then some []
        else elim (record_from_stanza name stanza) [ none ↦ none | some r ↦ some (r ∷ []) ]
  ]

  -- A round of the loop.
  unfoldable pub read_line : Text → Reading → Option Reading
  unfolding flush set_field
  read_line raw_line r =
      let line = rstrip_by (λ c. c == b'\r') raw_line in
      if is_empty line
      then flushed (flush r.stanza) r
      else if is_indented line
      then some (record r { stanza = extend (strip line) (given r.current_field) r.stanza })
      else if contains b':' line
      then some (set_field line r)
      else some (record r { current_field = none })

  unfoldable pub read_lines : List Text → Reading → Option Reading
  unfolding read_line
  read_lines [] r = flushed (flush r.stanza) r
  read_lines (line ∷ lines) r = elim (read_line line r) [
    | none ↦ none
    | some s ↦ read_lines lines s
  ]

  unfoldable pub parse_packages : Text → Option (List PackageRecord)
  unfolding read_lines
  parse_packages text =
      records_of
        (read_lines (splitlines text) (record { records = []; stanza = []; current_field = none }))
