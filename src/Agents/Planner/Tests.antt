-- ===== src/Agents/Planner/Tests.antt =====
-- Runs of the planner, and the theorems about it.
use aioperator.Prelude.{
  ℕ, ◌≡◌, refl, true, Option, none, some, List, [], ◌∷◌, map, String, codes, str_eq, if◌then◌else◌,
}
use aioperator.Prelude.Strings.{Text, same_text}
use aioperator.Memory.Reflection.{default_hooks}
use aioperator.Agents.{result, raised, Host, AgentMemory, Answer, content}
use aioperator.Agents.Replies.{
  AiMessage, Decoded, unreadable, object, search, fallback_plan_step, is_finished, parse_action,
  observation, ask,
}
use aioperator.Agents.Planner.{finished, acted, turn, turns, run}
use aioperator.Agents.Planner.Known.{run-Holds}

program : Unit {0}
unfolding search fallback_plan_step is_finished parse_action observation ask turn turns run
    same_text
program = tt

-- The actions that were called, and the memory.
abbrev Kernel : Type 0
Kernel = List String × Option AgentMemory

abbrev host : Host Kernel ℕ
host = record {
  knows = λ a k. str_eq a "android.info";
  call = λ a p k. (result (record { success = true; dumped = codes "{}" }), (a ∷ k.0, k.1));
  memory = λ k. k.1;
  set_memory = λ m k. (k.0, some m);
}

abbrev decode : Text → Decoded ℕ
unfolding same_text
decode t =
    if same_text t (
      codes
        "{\"action\": \"android.info\", \"params\": {}, \"reason\": \"local fallback plan step\"}")
    then object (some "android.info") 0
    else if same_text t (codes "{rm}")
    then object (some "rm") 0
    else unreadable

abbrev memory : AgentMemory
memory = record {
  experience = record { file = none; capacity = 2000 };
  hooks = default_hooks;
  knowledge = some (record { table = []; file = none });
}

abbrev says : Text → Option (List AiMessage → Answer)
says t = some (λ m. content (some t))

-- An unknown action is replaced by the built-in step once, and then ends the run; a reply in which the
-- word stands ends it before its action is called.
run_tests :
    ((run host decode (says (codes "{rm}")) "tidy up" 8 5 [] ([], none)).0.history
      ≡ acted "android.info" true ∷ [])
    × ((run host decode
          (says (codes "{\"action\": \"fs.list\", \"reason\": \"abandoned files\"}"))
          "g"
          8
          5
          []
          ([], none)).0.history
        ≡ finished ∷ [])
    × ((run host decode (some (λ m. raised "no net")) "go" 2 5 [] ([], none)).1.0
        ≡ "android.info" ∷ "android.info" ∷ [])
unfolding program
run_tests = (refl, refl, refl)

-- Only `android.info` is ever called.
abbrev OnlyInfo : Kernel → Type 0
OnlyInfo k = map (λ a. str_eq a "android.info") k.0 ≡ map (λ a. true) k.0

run-Holds_example :
    OnlyInfo (run host decode (says (codes "{rm}")) "tidy up" 8 5 [] ([], some memory)).1
run-Holds_example =
    run-Holds host decode (says (codes "{rm}")) "tidy up" OnlyInfo (λ a p k h v. rw (h, v) refl)
      (λ m k v. v) 8 5 [] ([], some memory) refl
