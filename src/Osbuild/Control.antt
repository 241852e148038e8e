-- ===== src/Osbuild/Control.antt =====
-- buster/osbuild/deb.py: `parse_control`, the fields of a control file. `none` is a KeyError.
pub mod Printed
mod Tests
use aioperator.Prelude.{
  Bool, true, false, ◌&&◌, ◌||◌, not, Option, none, some, List, [], ◌∷◌, ◌++◌, if◌then◌else◌, ◌==◌,
  ℕ,
}
use aioperator.Prelude.Strings.{Text, strip, is_empty, contains, partition, splitlines, same_text}
use aioperator.Prelude.Strings.Lines.{same_text_iff}
use aioperator.Dict.{text_eq, Eq, Dict, get, put}

abbrev pub Fields : Type 0
Fields = Dict Text Text

-- The variables of the loop.
pub record Reading : Type 0 where
  pub fields : Fields
  pub current : Option Text

-- `line[0] in (" ", "\t")`
abbrev pub is_indented : Text → Bool
is_indented [] = false
is_indented (c ∷ s) = c == b' ' || c == b'\t'

-- `current` as a condition.
abbrev pub is_given : Option Text → Bool
is_given none = false
is_given (some t) = not (is_empty t)

-- `fields[current] += " " + text`
unfoldable pub continue_field : Text → Fields → Option Text → Option Reading
continue_field text fields none = some (record { fields = fields; current = none })
continue_field text fields (some k) = elim (get k fields) [
  | none ↦ none
  | some v ↦ some (record { fields = put k (v ++ b' ' ∷ text) fields; current = some k })
]

-- `key, _, value = line.partition(":")` and the assignment.
unfoldable pub set_field : Text → Reading → Reading
unfolding partition
set_field line r =
    let (key, value) = partition b':' line in
    record { fields = put (strip key) (strip value) r.fields; current = some (strip key) }

-- A round of the loop.
unfoldable pub read_line : Text → Reading → Option Reading
unfolding continue_field set_field
read_line line r =
    if is_empty (strip line)
    then some r
    else if is_indented line && is_given r.current
    then continue_field (strip line) r.fields r.current
    else if contains b':' line
    then some (set_field line r)
    else some r

unfoldable pub read_lines : List Text → Reading → Option Reading
unfolding read_line
read_lines [] r = some r
read_lines (line ∷ lines) r = elim (read_line line r) [ none ↦ none | some s ↦ read_lines lines s ]

abbrev pub fields_of : Option Reading → Option Fields
fields_of none = none
fields_of (some r) = some r.fields

unfoldable pub parse_control : Text → Option Fields
unfolding read_lines
parse_control text =
    fields_of (read_lines (splitlines text) (record { fields = []; current = none }))
