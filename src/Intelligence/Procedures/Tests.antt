-- ===== src/Intelligence/Procedures/Tests.antt =====
-- Recipes that are learnt and used, and the theorem about their file.
use aioperator.Prelude.{◌≡◌, refl, ◌/◌, ◌*◌, true, false, none, List, [], ◌∷◌, map}
use aioperator.Dict.{get, put, string_eq}
use aioperator.Dict.Reload.{read_rows}
use aioperator.Intelligence.Procedures.{load, save, learn_recipe, record_use, rows}
use aioperator.Intelligence.Procedures.Reloaded.{
  Op, learns, uses, apply, run, IsCounted, reload-run,
}

program : Unit {0}
unfolding get put read_rows load save learn_recipe record_use rows apply run
program = tt

abbrev ops : List Op
ops = learns 1 "tea" ("boil" ∷ []) ∷ uses 2 "tea" true ∷ uses 3 "tea" false ∷ uses 4 "pie" true ∷ []

run_tests : map (λ r. r.reliability) (rows (λ a b. a * 1000 / b) (run ops (load none))) ≡ 500 ∷ []
unfolding program
run_tests = refl

reload-run_example :
    ((load (run ops (load none)).file).recipes ≡ (run ops (load none)).recipes)
    × IsCounted (run ops (load none)).recipes
reload-run_example = reload-run ops
