-- ===== src/Intelligence/Plans/Tests.antt =====
-- A registry of plans, and the theorem about it.
use aioperator.Prelude.{ℕ, ◌≡◌, refl, none, List, [], ◌∷◌, String, negsuc, pos, map}
use aioperator.Dict.{get as find, put, remove, string_eq}
use aioperator.Dict.Reload.{read_rows}
use aioperator.Intelligence.Plans.{
  PlanStore, PlanStep, PlanResult, index_error, updates, not_found, place, set_at, save, load,
  create, write, update_step, append_steps, remove_each, purge_goal,
}

program : Unit {0}
unfolding find put remove read_rows place set_at save load create write update_step append_steps
    remove_each purge_goal
program = tt

abbrev step : String → PlanStep ℕ
step action = record {
  action = action;
  params = [];
  reason = "";
  status = "pending";
  observation = [];
}

abbrev store : PlanStore ℕ
store =
    (create 3 "c" "g1" "again" [] none
      (create 2 "b" "g2" "other" (step "x" ∷ step "y" ∷ []) none
        (create 1 "a" "g1" "first" [] none (load none)).0).0).0

abbrev statuses : PlanResult ℕ → List String
statuses not_found = "none" ∷ []
statuses index_error = "error" ∷ []
statuses (updates s p) = map (λ t. t.status) p.steps

run_tests :
    ((purge_goal "g1" store).1 ≡ 2)
    × (statuses (update_step 4 "b" (negsuc 0) "succeeded" [] store) ≡ "pending" ∷ "succeeded" ∷ [])
    × (statuses (update_step 4 "b" (negsuc 2) "succeeded" [] store) ≡ "error" ∷ [])
    × (statuses (update_step 4 "b" (pos 2) "succeeded" [] store) ≡ "none" ∷ [])
unfolding program
run_tests = (refl, refl, refl, refl)
