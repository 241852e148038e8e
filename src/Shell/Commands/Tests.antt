-- ===== src/Shell/Commands/Tests.antt =====
-- A shell with two commands and an alias, and the theorems about it.
use aioperator.Prelude.{ℕ, ◌+◌, String, ◌≡◌, refl, true, none, List, []}
use aioperator.Dict.{get, put, string_eq}
use aioperator.Shell.Commands.{
  success, failure, Outcome, raises, returns, CommandRegistry, register, alias, has_command,
  resolve, dispatch,
}

program : Unit {0}
unfolding get put register alias has_command resolve dispatch
program = tt

abbrev count_up : ℕ → List String → Outcome ℕ String
count_up n args = returns (success "count" none) (n + 1)

abbrev breaks : ℕ → List String → Outcome ℕ String
breaks n args = raises "ValueError: no" n

abbrev shell : CommandRegistry ℕ String
unfolding program
shell = alias "c" "count" (
    register "break" breaks ""
      (register "count" count_up "" (record { commands = []; aliases = [] })))

-- An alias of a name that is not registered counts as a command and fails when it is run.
run_tests :
    (dispatch shell "c" [] 4 ≡ (success "count" none, 5))
    × (dispatch shell "break" [] 4 ≡ (failure "break" "ValueError: no", 4))
    × (dispatch shell "quit" [] 4 ≡ (failure "quit" "unknown command 'quit'", 4))
    × (has_command "q" (alias "q" "quit" shell) ≡ true)
    × (dispatch (alias "q" "quit" shell) "q" [] 4 ≡ (failure "q" "unknown command 'q'", 4))
unfolding program
run_tests = (refl, refl, refl, refl, refl)
