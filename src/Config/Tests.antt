-- ===== src/Config/Tests.antt =====
-- A configuration with nested settings, and the theorem about it.
use aioperator.Prelude.{ℕ, ◌≡◌, refl, none, [], ◌∷◌, get_or}
use aioperator.Config.{
  atom, empty, field, Config, get_field, put_field, save, get, set, get_path, get_nested, set_path,
  set_nested,
}

program : Unit {0}
unfolding get_field put_field save get set get_path get_nested set_path set_nested
program = tt

abbrev fresh : Config ℕ
fresh =
    save (record { install_path = 7; fields = field "logging_level" (atom 1) empty; file = none })

abbrev written : Config ℕ
written = get_or (set_nested ("permissions" ∷ "fs" ∷ []) "delete" (atom 5) fresh) fresh

run_tests :
    (get_nested ("permissions" ∷ "fs" ∷ "delete" ∷ []) (atom 0) written ≡ atom 5)
    × (get_nested ("permissions" ∷ "net" ∷ []) (atom 0) written ≡ atom 0)
    × (set_nested ("logging_level" ∷ []) "x" (atom 5) fresh ≡ none)
    × (get "install_path" (atom 0) (set "install_path" (atom 9) fresh) ≡ atom 7)
unfolding program
run_tests = (refl, refl, refl, refl)
