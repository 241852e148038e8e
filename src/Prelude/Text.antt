-- ===== src/Prelude/Text.antt =====
-- Texts that the code puts together.
use Prim.Native.Nat.{ℕ}
use Prim.Native.Char.{code}
use Prim.Native.String.{String, ◌++◌}
use mathlib.Core.List.{List, [], ◌∷◌}

-- An f-string: its pieces in a row.
abbrev pub fstring : List String → String
fstring [] = ""
fstring (s ∷ rest) = s ++ fstring rest

-- The code points of a text.
abbrev pub codes : String → List ℕ
codes String.[] = []
codes (String.◌∷◌ c s) = code c ∷ codes s
