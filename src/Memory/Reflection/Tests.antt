-- ===== src/Memory/Reflection/Tests.antt =====
-- Reflections on three runs, and the theorems about them.
use aioperator.Prelude.{String, ◌≡◌, refl, Option, none, some, List, [], ◌∷◌, ◌++◌}
use aioperator.Dict.{get, put, keys}
use aioperator.Memory.Knowledge.{KnowledgeMemory, learn, save}
use aioperator.Memory.Reflection.{
  Entry, reflect_failures, reflect_targets, reflect_winning_patterns, reflect_agent_usage,
  default_hooks, learn_from, run_hooks, on_experience, each_experience, reflect, text, null,
  missing,
}
use aioperator.Memory.Reflection.Learned.{Known, reflect-AtLeast}

program : Unit {0}
unfolding get put learn save reflect_failures reflect_targets reflect_winning_patterns
    reflect_agent_usage default_hooks learn_from run_hooks on_experience each_experience reflect
program = tt

abbrev empty : KnowledgeMemory String
empty = record { table = []; file = none }

abbrev run_of : String → String → Entry
run_of status target = record {
  status = some status;
  target = text target;
  error = none;
  agent = some "worker";
}

abbrev key_list : Option (KnowledgeMemory String) → List String
key_list none = []
key_list (some k) = keys k.table

run_tests :
    (key_list
        (reflect 1 default_hooks
          (run_of "done" "tidy" ∷ run_of "failed" "burn" ∷ [])
          (some empty)).1
      ≡ "goal_seen:tidy" ∷ "pattern:tidy" ∷ "agent_working:worker" ∷ "avoid_repeat:burn"
        ∷ "goal_seen:burn" ∷ [])
    × ((reflect 1 default_hooks (run_of "failed" "" ∷ []) (some empty)).0 ≡ 0)
    × ((reflect 1 default_hooks (run_of "done" "tidy" ∷ []) none).0 ≡ 0)
    × ((reflect 1 default_hooks
          (record (run_of "done" "") { target = missing } ∷ [])
          (some empty)).0
        ≡ 1)
    × ((reflect 1 default_hooks (record (run_of "done" "") { target = null } ∷ []) (some empty)).0
        ≡ 0)
unfolding program
run_tests = (refl, refl, refl, refl, refl)

reflect-AtLeast_example :
    Known "avoid_repeat:burn" 600
      (reflect 1 default_hooks
        ((run_of "done" "tidy" ∷ []) ++ run_of "failed" "burn" ∷ run_of "done" "burn" ∷ [])
        (some empty)).1
unfolding program
reflect-AtLeast_example =
    reflect-AtLeast 1 (run_of "done" "tidy" ∷ []) (run_of "done" "burn" ∷ [])
      (run_of "failed" "burn") "burn" empty refl refl
