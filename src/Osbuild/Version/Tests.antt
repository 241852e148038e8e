-- ===== src/Osbuild/Version/Tests.antt =====
-- Versions compared, and the theorems about them.
use aioperator.Prelude.{
  ◌≡◌, refl, Option, none, some, [], ◌∷◌, ℤ, pos, if◌then◌else◌, ◌&&◌, leb, codes,
}
use aioperator.Osbuild.Version.{
  Text, same, greater, cmp_text, partition, add_char, pieces, cmp_piece, cmp_pieces, cmp_component,
  cmp_rest, split_version, vercmp,
}

program : Unit {0}
unfolding cmp_text partition add_char pieces cmp_piece cmp_pieces cmp_component cmp_rest
    split_version vercmp
program = tt

-- `int` on one digit.
abbrev int : Text → Option ℤ
int (c ∷ []) = if leb b'0' c && leb c b'9' then some (pos 0) else none
int _ = none

run_tests :
    (vercmp int (codes "1.10-1") (codes "1.9-2") ≡ greater)
    × (vercmp int (codes "1.0~rc1") (codes "1.0") ≡ greater)
    × (vercmp int (codes "1.0") (codes "1.0") ≡ same)
    × (vercmp int (codes "01") (codes "2") ≡ greater)
unfolding program
run_tests = (refl, refl, refl, refl)
