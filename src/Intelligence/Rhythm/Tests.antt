-- ===== src/Intelligence/Rhythm/Tests.antt =====
-- Transitions of the cognitive rhythm, and the theorem at one.
use aioperator.Prelude.{◌≡◌, refl, true, [], ◌∷◌}
use aioperator.Intelligence.Rhythm.{
  active, idle, recovery, CognitiveRhythm, NervousState, init, maintenance_due, reflection_due,
  target, put_off, enter, leave, transition,
}

program : Unit {0}
unfolding init maintenance_due reflection_due target put_off enter leave transition
program = tt

abbrev fresh : CognitiveRhythm
fresh = init 1000 300 3600 1800 true

abbrev critical : NervousState
critical = record { activity = "idle"; overall = "critical" }

abbrev healthy : NervousState
healthy = record { activity = "active"; overall = "healthy" }

abbrev pressed : CognitiveRhythm
pressed = transition 1010 critical 0 0 fresh

run_tests :
    ((transition 1020 healthy 0 0 pressed).current ≡ recovery)
    × ((transition 1040 healthy 0 0
          (transition 1030 critical 0 0 (transition 1020 healthy 0 0 pressed))).current
        ≡ idle)
    × ((transition 1020 healthy 0 0 fresh).emitted ≡ active ∷ [])
unfolding program
run_tests = (refl, refl, refl)
