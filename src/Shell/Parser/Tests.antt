-- ===== src/Shell/Parser/Tests.antt =====
-- Command lines through the parser, and the theorem about one.
use aioperator.Prelude.{ℕ, ◌≡◌, refl, Bool, ◌==◌, none, some, [], ◌∷◌, map, codes}
use aioperator.Shell.Parser.{
  Text, given, switched_on, same_text, partition, strip_assigned, strip_outer_quotes, set_option,
  scan, tokenize, read_tokens, parse,
}

program : Unit {0}
unfolding same_text partition strip_assigned strip_outer_quotes set_option scan tokenize read_tokens
    parse
program = tt

abbrev is_space : ℕ → Bool
is_space c = c == b' '

abbrev same : Text → Text
same t = t

run_tests :
    (parse same is_space (codes " run 'a b' --n=3 --x y -v --z ")
      ≡ some (record {
        name = codes "run";
        args = codes "a b" ∷ [];
        options =
            (codes "n", given (codes "3"))
            ∷ (codes "x", given (codes "y"))
            ∷ (codes "v", switched_on)
            ∷ (codes "z", switched_on)
            ∷ [];
      }))
    × (parse same is_space (codes "  ") ≡ none)
    × (map strip_outer_quotes (tokenize is_space (codes "key=\"a b\" c"))
        ≡ codes "key=a b" ∷ codes "c" ∷ [])
unfolding program
run_tests = (refl, refl, refl)
