-- ===== src/Intelligence/Learning/Tests.antt =====
-- Cycles and outcomes that are recorded, and the theorem about the counts.
use aioperator.Prelude.{ℕ, ◌≡◌, refl, Bool, none, some, [], ◌∷◌, String, length, str_eq}
use aioperator.Dict.{get, put, string_eq}
use aioperator.Capabilities.Registry.{CapabilityResult, result_ok, result_fail}
use aioperator.Memory.Experience.{ExperienceMemory, store}
use aioperator.Memory.Knowledge.{KnowledgeMemory, learn, save}
use aioperator.Intelligence.Learning.{
  Outcomes, evaluate, record_cycle, record_capability_outcome, outcome_key, previous,
}
use aioperator.Intelligence.Learning.Reliability.{
  record_all, record_all-counts, successes, failures,
}

program : Unit {0}
unfolding get put learn save store evaluate record_cycle record_capability_outcome record_all
program = tt

abbrev refused : CapabilityResult ℕ
refused = result_fail "Permission denied for action"

abbrev fine : CapabilityResult ℕ
fine = result_ok (some 1)

abbrev has : String → String → Bool
has w s = str_eq w "permission denied"

abbrev nothing : ExperienceMemory × KnowledgeMemory String
nothing = (record { file = none; capacity = 20 }, record { table = []; file = none })

-- An evaluation that is given is dropped where there is no result.
run_tests :
    (evaluate has refused ≡ "blocked")
    × (evaluate has fine ≡ "success")
    × ((record_cycle {D = ℕ} has
          (λ t. t)
          3
          "goal"
          "success"
          none
          (some "rest")
          nothing).0.evaluation
        ≡ "")
    × ((record_cycle {D = ℕ} has
          (λ t. t)
          3
          "goal"
          ""
          (some fine)
          (some "rest")
          nothing).0.evaluation
        ≡ "success")
unfolding program
run_tests = (refl, refl, refl, refl)

record_all-counts_example :
    previous {V = Outcomes}
      (λ o. o)
      (get
        (outcome_key "fs.read")
        (record_all
          (λ o. o)
          (λ r o. o)
          (λ a b. a)
          (λ r o. refl)
          7
          "fs.read"
          (fine ∷ refused ∷ fine ∷ [])
          (record { table = []; file = none })).table)
    ≡ record {
      uses = length (fine ∷ refused ∷ fine ∷ []);
      successes = successes (fine ∷ refused ∷ fine ∷ []);
      failures = failures (fine ∷ refused ∷ fine ∷ []);
    }
unfolding program
record_all-counts_example =
    record_all-counts {V = Outcomes} (λ o. o) (λ r o. o) (λ a b. a) (λ r o. refl) 7 "fs.read"
      (fine ∷ refused ∷ fine ∷ []) (record { table = []; file = none }) refl
