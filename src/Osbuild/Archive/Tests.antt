-- ===== src/Osbuild/Archive/Tests.antt =====
-- Small archives, and the theorems about them.
use aioperator.Prelude.{String, ◌≡◌, ◌≢◌, ◌⊎◌, refl, List, [], ◌∷◌, ◌++◌, codes, arith, map, All}
use aioperator.Prelude.Strings.{Text}
use aioperator.Osbuild.Archive.{
  Bytes, magic, size_of, name_of, member_at, read_members, parse_ar, members, not_an_archive,
  without_tables, out_of_fuel,
}
use aioperator.Osbuild.Archive.Image.{Stored, IsStored, image, as_member, parse_ar-image}
use aioperator.Osbuild.Archive.Ends.{HasNegativeSize, parse_ar_halts}
use aioperator.Osbuild.Archive.Parts.{IsMember, parse_ar-IsMember}

program : Unit {0}
unfolding size_of name_of member_at read_members parse_ar
program = tt

abbrev decode : Bytes → Text
decode b = b

abbrev header_of : String → String → Bytes
header_of name size =
    codes name ++ (codes "1700000000  0     0     100644  " ++ (codes size ++ codes "`\n"))

abbrev two : List Stored
two =
    record { header = header_of "debian-binary   " "3         "; body = codes "2.0" }
    ∷ record { header = header_of "//              " "4         "; body = codes "a/b/" }
    ∷ []

abbrev negative : Bytes
negative = header_of "control.tar     " "-60       "

two-IsStored : All IsStored two
unfolding program
two-IsStored =
    (record { header_is = refl; size_is = refl }, (record { header_is = refl; size_is = refl }, tt))

-- The name table is not dropped: its name is empty when the two slashes are looked for.
run_tests :
    (parse_ar decode 9 (codes "plain") ≡ not_an_archive)
    × (parse_ar decode 9 magic ≡ members [])
    × (parse_ar decode 9 (magic ++ image two)
        ≡ members ((codes "debian-binary", codes "2.0") ∷ ([], codes "a/b/") ∷ []))
    × (parse_ar decode 9 (magic ++ header_of "data.tar        " "7         ") ≡ members [])
    × (parse_ar decode 9 (magic ++ (header_of "x               " "1x        " ++ codes "y"))
        ≡ members [])
unfolding program
run_tests = (refl, refl, refl, refl, refl)

parse_ar-image_example :
    parse_ar decode 3 (magic ++ (image two ++ codes "tail"))
    ≡ members (without_tables (map (as_member decode) two))
parse_ar-image_example =
    parse_ar-image decode 3 two (codes "tail") two-IsStored (omega arith) (omega arith)

parse_ar_halts_example :
    (parse_ar decode 136 (magic ++ image two) ≢ out_of_fuel)
    ⊎ HasNegativeSize decode (magic ++ image two)
parse_ar_halts_example = parse_ar_halts decode (magic ++ image two)

parse_ar-IsMember_example :
    All
      (IsMember decode (magic ++ image two))
      ((codes "debian-binary", codes "2.0") ∷ ([], codes "a/b/") ∷ [])
    ⊎ HasNegativeSize decode (magic ++ image two)
unfolding program
parse_ar-IsMember_example =
    parse_ar-IsMember decode (magic ++ image two) 9
      ((codes "debian-binary", codes "2.0") ∷ ([], codes "a/b/") ∷ []) refl
