-- ===== src/Osbuild/Index/Stanzas.antt =====
-- buster/osbuild/packages.py: an index that is printed stanza by stanza is read back stanza by stanza.
use mathlib.Core.List.{append_assoc, append-nil}
use aioperator.Prelude.{
  ℕ, false, Option-cases, inl, inr, Option, none, some, List, [], ◌∷◌, ◌++◌, ◌≡◌, refl, ap, ◌∙◌,
  All, ◌==◌, ℤ, arith,
}
use aioperator.Prelude.Strings.{Text, rstrip_by, is_break, splitlines, lines_from}
use aioperator.Prelude.Strings.Lines.{IsOneLine, splitlines-line, partition-append, contains-append}
use aioperator.Dict.{text_eq, get, put}
use aioperator.Osbuild.Control.Printed.{
  IsField, print_field, print, put_all, print_field-IsOneLine, is_indented-solid,
  is_empty-print_field,
}
use aioperator.Osbuild.Index.{
  PackageRecord, Reading, flush, set_field, read_line, read_lines, records_of, parse_packages,
}

-- The fields of each stanza and an empty line.
abbrev pub print_index : List (List (Text × Text)) → Text
print_index [] = []
print_index (fs ∷ stanzas) = print fs ++ b'\n' ∷ print_index stanzas

not_return : (c : ℕ) → is_break c ≡ false → (c == b'\r') ≡ false
not_return c h = ground arith

rstrip-IsOneLine : (s : Text) → IsOneLine s → rstrip_by (λ c. c == b'\r') s ≡ s
rstrip-IsOneLine [] h = refl
rstrip-IsOneLine (c ∷ s) h = rw (not_return c h.0) (ap (λ t. c ∷ t) (rstrip-IsOneLine s h.1))

abbrev begun : List PackageRecord → Reading
begun rs = record { records = rs; stanza = []; current_field = none }

abbrev with_fields : List (Text × Text) → Reading → Reading
with_fields [] r = r
with_fields (f ∷ fs) r =
    with_fields fs (record r { stanza = put f.0 f.1 r.stanza; current_field = some f.0 })

with_fields_lem :
    (fs : List (Text × Text)) (r : Reading)
    → ((with_fields fs r).stanza ≡ put_all fs r.stanza) × ((with_fields fs r).records ≡ r.records)
with_fields_lem [] r = (refl, refl)
with_fields_lem (f ∷ fs) r =
    with_fields_lem fs (record r { stanza = put f.0 f.1 r.stanza; current_field = some f.0 })

module _ (int : Text → Option ℤ) where
  -- The records of the stanzas, each read on its own.
  abbrev pub read_all : List (List (Text × Text)) → List PackageRecord → Option (List PackageRecord)
  read_all [] rs = some rs
  read_all (fs ∷ stanzas) rs = elim (flush int (put_all fs [])) [
    | none ↦ none
    | some new ↦ read_all stanzas (rs ++ new)
  ]

  read_line-print_field :
      (f : Text × Text) (r : Reading)
      → IsField f
      → read_line int (print_field f) r ≡ some (with_fields (f ∷ []) r)
  unfolding read_line set_field
  read_line-print_field f r v =
      rw
        (
          rstrip-IsOneLine (print_field f) (print_field-IsOneLine f v),
          is_empty-print_field f v,
          is_indented-solid f.0 (b':' ∷ b' ' ∷ f.1) v.begins,
          contains-append b':' f.0 (b' ' ∷ f.1),
          partition-append b':' f.0 (b' ' ∷ f.1) v.no_colon,
          v.name_is,
          v.value_is,
        )
        refl

  read_lines-print :
      (fs : List (Text × Text)) (rest : Text) (r : Reading)
      → All IsField fs
      → read_lines int (splitlines (print fs ++ rest)) r
        ≡ read_lines int (splitlines rest) (with_fields fs r)
  unfolding read_lines
  read_lines-print [] rest r v = refl
  read_lines-print (f ∷ fs) rest r v =
      rw
        (
          append_assoc (print_field f) (b'\n' ∷ print fs) rest,
          splitlines-line (print_field f) (print fs ++ rest) (print_field-IsOneLine f v.0),
          read_lines,
          read_line-print_field f r v.0,
        )
        (read_lines-print fs rest (with_fields (f ∷ []) r) v.1)

  -- The line behind a stanza.
  read_lines-no_record :
      (rest : Text) (r : Reading)
      → flush int r.stanza ≡ none
      → read_lines int (splitlines (b'\n' ∷ rest)) r ≡ none
  unfolding read_lines splitlines lines_from read_line
  read_lines-no_record rest r h = rw (h, read_lines) refl

  read_lines-new_records :
      (rest : Text) (r : Reading) (new : List PackageRecord)
      → flush int r.stanza ≡ some new
      → read_lines int (splitlines (b'\n' ∷ rest)) r
        ≡ read_lines int (splitlines rest) (begun (r.records ++ new))
  unfolding read_lines splitlines lines_from read_line
  read_lines-new_records rest r new h = rw (h, read_lines) refl

  read_lines-nothing :
      (rs : List PackageRecord) → records_of (read_lines int [] (begun rs)) ≡ some rs
  unfolding read_lines flush get
  read_lines-nothing rs = ap some (append-nil rs)

  read_lines-print_index :
      (stanzas : List (List (Text × Text))) (rs : List PackageRecord)
      → All (All IsField) stanzas
      → records_of (read_lines int (splitlines (print_index stanzas)) (begun rs))
        ≡ read_all stanzas rs
  unfolding splitlines lines_from
  read_lines-print_index [] rs v = read_lines-nothing rs
  read_lines-print_index (fs ∷ stanzas) rs v =
      let (stanza_is, records_are) = with_fields_lem fs (begun rs) in
      let rest = print_index stanzas in
      let after = with_fields fs (begun rs) in
      ap records_of (read_lines-print fs (b'\n' ∷ rest) (begun rs) v.0)
      ∙ elim (Option-cases (flush int (put_all fs []))) [
        | inl e ↦
            ap records_of (read_lines-no_record rest after (ap (flush int) stanza_is ∙ e))
            ∙ rw (e, read_all) refl
        | inr (new, e) ↦
            ap records_of (read_lines-new_records rest after new (ap (flush int) stanza_is ∙ e))
            ∙ ap (λ l. records_of (read_lines int (splitlines rest) (begun (l ++ new)))) records_are
            ∙ read_lines-print_index stanzas (rs ++ new) v.1
            ∙ rw (e, read_all) refl
      ]

  -- Stanzas printed one behind the other, each with an empty line, are read as if each stood alone,
  -- in their order; a size that is no number makes an error of the whole.
  pub parse_packages-print_index :
      (stanzas : List (List (Text × Text)))
      → All (All IsField) stanzas
      → parse_packages int (print_index stanzas) ≡ read_all stanzas []
  unfolding parse_packages
  parse_packages-print_index stanzas v = read_lines-print_index stanzas [] v
