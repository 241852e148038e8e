-- ===== src/Osbuild/Elf/Tests.antt =====
-- Two headers, and the theorem about one.
use aioperator.Prelude.{ℕ, ◌≡◌, refl, true, none, List, [], ◌∷◌, ◌++◌, codes}
use aioperator.Osbuild.Elf.{little, ElfHeader, bits, does_match, magic, parse_elf}

program : Unit {0}
unfolding bits does_match parse_elf
program = tt

abbrev arm64 : ElfHeader
arm64 = record { e_class = 2; endian = little; e_machine = 183 }

abbrev filler : List ℕ
filler = 1 ∷ 0 ∷ 0 ∷ 0 ∷ 0 ∷ 0 ∷ 0 ∷ 0 ∷ 0 ∷ 0 ∷ 3 ∷ 0 ∷ []

run_tests :
    (parse_elf (codes "#!/bin/sh") ≡ none)
    × (parse_elf (magic ++ filler) ≡ none)
    × (bits arm64 ≡ 64)
    × (does_match arm64 183 2 ≡ true)
unfolding program
run_tests = (refl, refl, refl, refl)
