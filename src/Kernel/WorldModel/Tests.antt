-- ===== src/Kernel/WorldModel/Tests.antt =====
-- A run of the world model, and the theorems about it at its states.
use aioperator.Prelude.{ℕ, ◌≡◌, refl, Bool, true, false, List, [], ◌∷◌, map, length, pos, String}
use aioperator.Dict.{Dict, get, put, remove as pop, string_eq}
use aioperator.Kernel.WorldModel.{
  WorldModel, init, bump, snapshot, recent_events, set_fact, get_fact, observe, infer,
  forget_inferred, add_entity, record_event, repeats_last, register_component, component_status,
}
use aioperator.Kernel.WorldModel.Events.{
  Op, setting, inferring, forgetting, recording, registering, reporting, apply, run, IsTidy,
  run-IsTidy, IsAnnounced, run-IsAnnounced,
}

program : Unit {0}
unfolding get put pop bump snapshot recent_events set_fact get_fact observe infer forget_inferred
    add_entity record_event repeats_last register_component component_status apply run
program = tt

abbrev plain : ℕ → ℕ
plain v = v

abbrev same : Dict String ℕ → Dict String ℕ → Bool
same [] [] = true
same [] (q ∷ e) = false
same (p ∷ d) [] = false
same (p ∷ d) (q ∷ e) = true

abbrev calls : List (Op ℕ)
calls =
    setting 1 "battery" 80
    ∷ recording 2 "boot" []
    ∷ recording 3 "boot" []
    ∷ inferring 4 "user" 7 (pos 1200) "guess"
    ∷ forgetting "user"
    ∷ recording 5 "wake" []
    ∷ recording 6 "sleep" (("why", 1) ∷ [])
    ∷ registering 7 "shell" []
    ∷ reporting 8 "shell" "running" []
    ∷ []

run_tests :
    ((run plain same calls (init true 2)).version ≡ 7)
    × (map (λ e. e.type) (run plain same calls (init true 2)).events ≡ "wake" ∷ "sleep" ∷ [])
    × (length (run plain same calls (init false 2)).emitted ≡ 0)
unfolding program
run_tests = (refl, refl, refl)

run-IsTidy_example : IsTidy same 2 (run plain same calls (init true 2))
run-IsTidy_example = run-IsTidy plain same true 2 calls

run-IsAnnounced_example : IsAnnounced plain same (run plain same calls (init true 2))
run-IsAnnounced_example = run-IsAnnounced plain same 2 calls

abbrev started : WorldModel ℕ
started = run plain same calls (init true 2)
