-- ===== src/Intelligence/Rhythm/Modes.antt =====
-- When the cognitive rhythm is constrained or recovers, and which modes it announces.
use aioperator.Prelude.{ℕ, ◌+◌, ◌≡◌, ap, ◌∙◌, false, not, ◌&&◌, str_eq, leb, arith}
use aioperator.Intelligence.Rhythm.{
  Mode, recovery, constrained, same_mode, CognitiveRhythm, NervousState, target, put_off, leave,
  enter, transition,
}

target-critical :
    (now : ℕ) (s : NervousState) (goals jobs : ℕ) (r : CognitiveRhythm)
    → same_mode (target now s goals jobs r) constrained ≡ str_eq s.overall "critical"
unfolding target
target-critical now s goals jobs r = ground arith

target-recovery :
    (now : ℕ) (s : NervousState) (goals jobs : ℕ) (r : CognitiveRhythm)
    → same_mode (target now s goals jobs r) recovery ≡ false
unfolding target
target-recovery now s goals jobs r = ground arith

put_off_same :
    (now : ℕ) (m : Mode) (r : CognitiveRhythm)
    → ((put_off now m r).current ≡ r.current) × ((put_off now m r).last_recovery ≡ r.last_recovery)
unfolding put_off
put_off_same now m r = ground arith

leave_mode :
    (now : ℕ) (m : Mode) (r : CognitiveRhythm)
    → same_mode m recovery ≡ false
    → (same_mode (leave now m r).current constrained ≡ same_mode m constrained)
      × (same_mode (leave now m r).current recovery ≡ (
          not (same_mode m constrained)
          && same_mode r.current constrained
          && leb (r.last_recovery + 60) now))
unfolding leave enter
leave_mode now m r h = ground arith

-- A transition ends in the constrained mode exactly when the health is critical, and in recovery
-- exactly when it is not, the mode was constrained, and a minute has passed since the last recovery.
pub transition-mode :
    (now : ℕ) (s : NervousState) (goals jobs : ℕ) (r : CognitiveRhythm)
    → let r' = transition now s goals jobs r in
      (same_mode r'.current constrained ≡ str_eq s.overall "critical")
      × (same_mode r'.current recovery ≡ (
          not (str_eq s.overall "critical")
          && same_mode r.current constrained
          && leb (r.last_recovery + 60) now))
unfolding transition
transition-mode now s goals jobs r =
    let m = target now s goals jobs r in
    let r₁ = put_off now m r in
    let c = target-critical now s goals jobs r in
    let (e, l) = put_off_same now m r in
    let h = leave_mode now m r₁ (target-recovery now s goals jobs r) in
    (
      h.0 ∙ c,
      h.1
          ∙ ap (λ b. not b && same_mode r₁.current constrained && leb (r₁.last_recovery + 60) now) c
          ∙ ap
              (λ b.
                not (str_eq s.overall "critical")
                && same_mode b constrained
                && leb (r₁.last_recovery + 60) now)
              e
          ∙ ap
              (λ b.
                not (str_eq s.overall "critical")
                && same_mode r.current constrained
                && leb (b + 60) now)
              l,
    )
