-- ===== src/Intelligence/Goals/Tests.antt =====
-- A run of the goal registry, and the theorems about it at its states.
use aioperator.Prelude.{
  ◌≡◌, refl, none, some, List, [], ◌∷◌, map, String, pos, sort_insert, sort_by,
}
use aioperator.Dict.{get as find, put, values, string_eq}
use aioperator.Dict.Reload.{read_rows}
use aioperator.Intelligence.Goals.{
  save, load, active_titled, create, complete, fail, cancel, spawn_subgoal, update, change_all,
  change, list_goals, close_one, close_each, close_stale,
}
use aioperator.Intelligence.Goals.Titles.{Op, creates, completes, spawns, closes, apply, run}
use aioperator.Intelligence.Goals.Saved.{load-run}

program : Unit {0}
unfolding find put read_rows sort_insert sort_by save load active_titled create complete fail cancel
    spawn_subgoal update change_all change list_goals close_one close_each close_stale apply run
program = tt

abbrev calls : List Op
calls =
    creates 10 "a" "ship" "user" (pos 1) "user" none [] none
    ∷ creates 11 "b" "ship" "user" (pos 9) "user" none [] none
    ∷ spawns 12 "c" "a" "test" (pos 5)
    ∷ completes 13 "a"
    ∷ creates 14 "d" "ship" "task" (pos 2) "user" none [] none
    ∷ closes 20 7
    ∷ []

run_tests :
    (map {B = String × String} (λ g. (g.id, g.status)) (values (run calls (load none)).goals)
      ≡ ("a", "completed") ∷ ("c", "failed") ∷ ("d", "active") ∷ [])
    × (map (λ g. g.id) (list_goals none (run calls (load none))) ≡ "c" ∷ "d" ∷ "a" ∷ [])
    × (map (λ g. g.progress) (list_goals (some "completed") (run calls (load none))) ≡ 1000 ∷ [])
unfolding program
run_tests = (refl, refl, refl)

load-run_example : (load (run calls (load none)).file).goals ≡ (run calls (load none)).goals
load-run_example = load-run calls
