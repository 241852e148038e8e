-- ===== src/Perception/Tests.antt =====
-- A hub of two sensors, and the theorem about its snapshot.
use aioperator.Prelude.{ℕ, String, ◌≡◌, refl, Option, none, some, [], ◌∷◌}
use aioperator.Dict.{Dict, get, put, string_eq}
use aioperator.Perception.{register, get_sensor, observe_each, snapshot, shutdown}

program : Unit {0}
unfolding get put register get_sensor observe_each snapshot shutdown
program = tt

abbrev hub : Dict String (Option ℕ)
unfolding program
hub = register "battery" none (register "device" (some 7) [])

run_tests : (snapshot 0 hub ≡ ("device", 7) ∷ ("battery", 0) ∷ []) × (get_sensor "gps" hub ≡ none)
unfolding program
run_tests = (refl, refl)
