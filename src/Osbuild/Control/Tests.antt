-- ===== src/Osbuild/Control/Tests.antt =====
-- A control file, and the theorems about it.
use aioperator.Prelude.{◌≡◌, refl, some, List, [], ◌∷◌, codes, All}
use aioperator.Prelude.Strings.{Text, same_text, partition, lines_from, splitlines}
use aioperator.Dict.{get, put}
use aioperator.Osbuild.Control.{continue_field, set_field, read_line, read_lines, parse_control}
use aioperator.Osbuild.Control.Printed.{IsField, print, put_all, parse_control-print}

program : Unit {0}
unfolding get put same_text partition lines_from splitlines continue_field set_field read_line
    read_lines parse_control
program = tt

abbrev sample : List (Text × Text)
sample = (codes "Package", codes "bash") ∷ (codes "Version", codes "5.2-1") ∷ []

sample-IsField : All IsField sample
sample-IsField = (
  record {
    begins = refl;
    name_is = refl;
    no_colon = refl;
    value_is = refl;
    name_line = (refl, (refl, (refl, (refl, (refl, (refl, (refl, tt)))))));
    value_line = (refl, (refl, (refl, (refl, tt))));
  },
  (
    record {
      begins = refl;
      name_is = refl;
      no_colon = refl;
      value_is = refl;
      name_line = (refl, (refl, (refl, (refl, (refl, (refl, (refl, tt)))))));
      value_line = (refl, (refl, (refl, (refl, (refl, tt)))));
    },
    tt,
  ),
)

-- A continuation line joins the field before it; one with no field before it is read as a field.
run_tests :
    (parse_control (codes "A: 1\n  two\n\n\tthree\nplain\r\nB:2")
      ≡ some ((codes "A", codes "1 two three") ∷ (codes "B", codes "2") ∷ []))
    × (parse_control (codes " C: 3\nD : 4")
        ≡ some ((codes "C", codes "3") ∷ (codes "D", codes "4") ∷ []))
unfolding program
run_tests = (refl, refl)

parse_control-print_example : parse_control (print sample) ≡ some (put_all sample [])
parse_control-print_example = parse_control-print sample sample-IsField
