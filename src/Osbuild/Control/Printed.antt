-- ===== src/Osbuild/Control/Printed.antt =====
-- buster/osbuild/deb.py: `parse_control` reads any text, and reads back fields that were printed.
use mathlib.Core.Bool.{true≢false}
use mathlib.Core.Option.{none-ne-some, some-injective}
use aioperator.Prelude.{
  Bool, true, false, ◌&&◌, not, Bool-cases, Option-cases, inl, inr, Option, none, some, List, [],
  ◌∷◌, ◌++◌, ◌==◌, ==_iff, ℕ, ◌≡◌, ◌≢◌, refl, ap, sym, ◌∙◌, All,
}
use aioperator.Prelude.Strings.{
  Text, is_space, strip, is_empty, contains, partition, splitlines, lines_from,
}
use aioperator.Prelude.Strings.Lines.{
  IsOneLine, IsOneLine-append, splitlines-line, partition-append, contains-append,
}
use aioperator.Dict.{text_eq, get, put}
use aioperator.Dict.Laws.{get-put_self}
use aioperator.Osbuild.Control.{
  Fields, Reading, is_indented, is_given, continue_field, set_field, read_line, read_lines,
  parse_control, fields_of,
}

abbrev is_solid : Text → Bool
is_solid [] = false
is_solid (c ∷ s) = not (is_space c)

-- The current field is one of the fields.
pub record IsKnown (r : Reading) : Type 0 where
  pub known : (k : Text) → r.current ≡ some k → get k r.fields ≢ none

abbrev Keeps : Option Reading → Type 0
Keeps none = ⊥
Keeps (some r) = IsKnown r

IsKnown-put :
    (k v : Text) (d : Fields) (c : Option Text)
    → c ≡ some k
    → IsKnown (record { fields = put k v d; current = c })
IsKnown-put k v d c q = record {
  known = λ j e h.
      none-ne-some v
        (sym h ∙ ap (λ i. get i (put k v d)) (some-injective j k (sym e ∙ q)) ∙ get-put_self k v d);
}

set_field-IsKnown : (line : Text) (r : Reading) → IsKnown (set_field line r)
unfolding set_field
set_field-IsKnown line r =
    let (key, value) = partition b':' line in
    IsKnown-put (strip key) (strip value) r.fields (some (strip key)) refl

continue_field-IsKnown :
    (text : Text) (d : Fields) (c : Option Text)
    → IsKnown (record { fields = d; current = c })
    → Keeps (continue_field text d c)
unfolding continue_field
continue_field-IsKnown text d none v = v
continue_field-IsKnown text d (some k) v = elim (Option-cases (get k d)) [
  | inl q ↦ absurd (v.known k refl q)
  | inr (w, q) ↦ rw (q, continue_field) (IsKnown-put k (w ++ b' ' ∷ text) d (some k) refl)
]

read_line-IsKnown : (line : Text) (r : Reading) → IsKnown r → Keeps (read_line line r)
unfolding read_line
read_line-IsKnown line r v = elim (Bool-cases (is_empty (strip line))) [
  | inl e ↦ rw e v
  | inr e ↦ elim (Bool-cases (is_indented line && is_given r.current)) [
    | inl q ↦ rw (e, q) (continue_field-IsKnown (strip line) r.fields r.current v)
    | inr q ↦ elim (Bool-cases (contains b':' line)) [
      | inl p ↦ rw (e, q, p) (set_field-IsKnown line r)
      | inr p ↦ rw (e, q, p) v
    ]
  ]
]

read_lines-IsKnown : (lines : List Text) (r : Reading) → IsKnown r → Keeps (read_lines lines r)
unfolding read_lines
read_lines-IsKnown [] r v = v
read_lines-IsKnown (line ∷ lines) r v = elim (Option-cases (read_line line r)) [
  | inl e ↦ absurd (rw e at (read_line-IsKnown line r v))
  | inr (s, e) ↦
      rw (e, read_lines) (read_lines-IsKnown lines s (rw e at (read_line-IsKnown line r v)))
]

abbrev begun : Reading
begun = record { fields = []; current = none }

begun-IsKnown : IsKnown begun
begun-IsKnown = record { known = λ k e h. absurd (none-ne-some k e) }

-- Any text is read: a continuation line finds the field that it continues.
pub parse_control-ne-none : (text : Text) → parse_control text ≢ none
unfolding parse_control
parse_control-ne-none text h = elim (Option-cases (read_lines (splitlines text) begun)) [
  | inl e ↦ rw e at (read_lines-IsKnown (splitlines text) begun begun-IsKnown)
  | inr (r, e) ↦ absurd (none-ne-some r.fields (sym h ∙ rw (e, parse_control) refl))
]

-- A field as a line: the name does not begin with a space and holds no colon, both are stripped, and
-- neither breaks the line.
pub record IsField (f : Text × Text) : Type 0 where
  pub begins : is_solid f.0 ≡ true
  pub name_is : strip f.0 ≡ f.0
  pub no_colon : contains b':' f.0 ≡ false
  pub value_is : strip f.1 ≡ f.1
  pub name_line : IsOneLine f.0
  pub value_line : IsOneLine f.1

abbrev pub print_field : Text × Text → Text
print_field f = f.0 ++ b':' ∷ b' ' ∷ f.1

abbrev pub print : List (Text × Text) → Text
print [] = []
print (f ∷ fs) = print_field f ++ b'\n' ∷ print fs

abbrev pub put_all : List (Text × Text) → Fields → Fields
put_all [] d = d
put_all ((k, v) ∷ fs) d = put_all fs (put k v d)

pub print_field-IsOneLine : (f : Text × Text) → IsField f → IsOneLine (print_field f)
print_field-IsOneLine f v =
    IsOneLine-append f.0 (b':' ∷ b' ' ∷ f.1) v.name_line (refl, (refl, v.value_line))

not-eq-true : (b : Bool) → not b ≡ true → b ≡ false
not-eq-true true h = sym h
not-eq-true false h = refl

solid_lem : (s t : Text) → is_solid s ≡ true → is_empty (s ++ t) ≡ false
solid_lem [] t h = absurd (true≢false (sym h))
solid_lem (c ∷ s) t h = refl

-- A character that is no space differs from each that is one.
not_space : (c k : ℕ) → is_space k ≡ true → is_space c ≡ false → (c == k) ≡ false
not_space c k h q = elim (Bool-cases (c == k)) [
  | inl e ↦ absurd (true≢false (sym h ∙ ap is_space (sym ((==_iff c k).0 e)) ∙ q))
  | inr e ↦ e
]

strip-solid : (s t : Text) → is_solid s ≡ true → is_empty (strip (s ++ t)) ≡ false
strip-solid [] t h = absurd (true≢false (sym h))
strip-solid (c ∷ s) t h = let q = not-eq-true (is_space c) h in rw (q, q) refl

pub is_indented-solid : (s t : Text) → is_solid s ≡ true → is_indented (s ++ t) ≡ false
is_indented-solid [] t h = absurd (true≢false (sym h))
is_indented-solid (c ∷ s) t h =
    rw
      (
        not_space c b' ' refl (not-eq-true (is_space c) h),
        not_space c b'\t' refl (not-eq-true (is_space c) h),
      )
      refl

pub is_empty-print_field : (f : Text × Text) → IsField f → is_empty (print_field f) ≡ false
is_empty-print_field f v = solid_lem f.0 (b':' ∷ b' ' ∷ f.1) v.begins

set_field-print_field :
    (f : Text × Text) (r : Reading)
    → IsField f
    → set_field (print_field f) r ≡ record { fields = put f.0 f.1 r.fields; current = some f.0 }
unfolding set_field
set_field-print_field f r v =
    rw (partition-append b':' f.0 (b' ' ∷ f.1) v.no_colon, v.name_is, v.value_is) refl

read_line-print_field :
    (f : Text × Text) (r : Reading)
    → IsField f
    → read_line (print_field f) r
      ≡ some (record { fields = put f.0 f.1 r.fields; current = some f.0 })
unfolding read_line
read_line-print_field f r v =
    rw
      (
        strip-solid f.0 (b':' ∷ b' ' ∷ f.1) v.begins,
        is_indented-solid f.0 (b':' ∷ b' ' ∷ f.1) v.begins,
        contains-append b':' f.0 (b' ' ∷ f.1),
      )
      (ap some (set_field-print_field f r v))

read_lines-print :
    (fs : List (Text × Text)) (r : Reading)
    → All IsField fs
    → fields_of (read_lines (splitlines (print fs)) r) ≡ some (put_all fs r.fields)
unfolding read_lines splitlines lines_from
read_lines-print [] r v = refl
read_lines-print (f ∷ fs) r v =
    rw
      (
        splitlines-line (print_field f) (print fs) (print_field-IsOneLine f v.0),
        read_lines,
        read_line-print_field f r v.0,
      )
      (read_lines-print fs (record { fields = put f.0 f.1 r.fields; current = some f.0 }) v.1)

-- Fields printed one to a line are read back: each is assigned in turn.
pub parse_control-print :
    (fs : List (Text × Text)) → All IsField fs → parse_control (print fs) ≡ some (put_all fs [])
unfolding parse_control
parse_control-print fs v = read_lines-print fs begun v
