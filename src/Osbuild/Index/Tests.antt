-- ===== src/Osbuild/Index/Tests.antt =====
-- A small index, and the theorem about one.
use aioperator.Prelude.{
  ◌≡◌, refl, Bool, true, false, Option, none, some, List, [], ◌∷◌, codes, All, ℤ, pos, map,
}
use aioperator.Prelude.Strings.{Text, same_text, partition, split_on, lines_from, splitlines, int}
use aioperator.Dict.{get, put}
use aioperator.Osbuild.Control.Printed.{IsField}
use aioperator.Osbuild.Index.{
  PackageRecord, norm, provides_names, record_from_stanza, flush, set_field, read_line, read_lines,
  parse_packages,
}
use aioperator.Osbuild.Index.Stanzas.{print_index, read_all, parse_packages-print_index}

program : Unit {0}
unfolding get put same_text partition split_on lines_from splitlines norm provides_names
    record_from_stanza flush set_field read_line read_lines parse_packages
program = tt

abbrev summary : PackageRecord → Text × (Text × (ℤ × (Bool × List Text)))
unfolding provides_names
summary p = (p.package_name, (p.depends, (p.size, (p.essential, provides_names p))))

abbrev summaries :
    Option (List PackageRecord) → Option (List (Text × (Text × (ℤ × (Bool × List Text)))))
summaries none = none
summaries (some ps) = some (map summary ps)

run_tests :
    (summaries (
        parse_packages int (
          codes
            "Package: awk\nDepends: a (>= 1) ,b\nPre-Depends: c\nSize: 12\nEssential: Yes\nProvides: x (= 1), y\n\nVersion: 1\n\nPackage: z\n"))
      ≡ some (
          (codes "awk", (codes "a (>= 1), b, c", (pos 12, (true, codes "x" ∷ codes "y" ∷ []))))
          ∷ (codes "z", ([], (pos 0, (false, []))))
          ∷ []))
    × (parse_packages int (codes "Package: a\nSize: big\n") ≡ none)
unfolding program
run_tests = (refl, refl)

abbrev sample : List (List (Text × Text))
sample =
    ((codes "Package", codes "sh") ∷ (codes "Size", codes "9") ∷ [])
    ∷ ((codes "X", codes "y") ∷ [])
    ∷ []

sample-IsField : All (All IsField) sample
sample-IsField = (
  (
    record {
      begins = refl;
      name_is = refl;
      no_colon = refl;
      value_is = refl;
      name_line = (refl, (refl, (refl, (refl, (refl, (refl, (refl, tt)))))));
      value_line = (refl, (refl, tt));
    },
    (
      record {
        begins = refl;
        name_is = refl;
        no_colon = refl;
        value_is = refl;
        name_line = (refl, (refl, (refl, (refl, tt))));
        value_line = (refl, tt);
      },
      tt,
    ),
  ),
  (
    (
      record {
        begins = refl;
        name_is = refl;
        no_colon = refl;
        value_is = refl;
        name_line = (refl, tt);
        value_line = (refl, tt);
      },
      tt,
    ),
    tt,
  ),
)

parse_packages-print_index_example :
    parse_packages int (print_index sample) ≡ read_all int sample []
parse_packages-print_index_example = parse_packages-print_index int sample sample-IsField
