-- ===== src/Runtime/Lock/Waiting.antt =====
-- buster/runtime.py: no process waits for another to learn whether it has the lock.
use mathlib.Core.Path.{subst}
use aioperator.Prelude.{
  ℕ, zero, suc, ◌+◌, ◌-◌, ◌*◌, ◌≤◌, ◌≡◌, ◌⊎◌, refl, ap, sym, Bool, Bool-cases, inl, inr, Option,
  none, some, List, [], ◌∷◌, if◌then◌else◌, ◌==◌, ==_iff, arith,
}
use aioperator.Runtime.Lock.{
  LockFile, Stage, opening, reading, removing, writing, holds, refused, begins, is_taken, step,
  System, turn, turns,
}

-- The calls that a process has before it at most.
abbrev pub calls_left : Stage → ℕ
calls_left (opening n) = 3 * n + 1
calls_left (reading n) = 3 * n + 3
calls_left (removing n) = 3 * n + 2
calls_left writing = 1
calls_left holds = 0
calls_left refused = 0

abbrev pub count : ℕ → List ℕ → ℕ
count p [] = 0
count p (q ∷ qs) = (if p == q then 1 else 0) + count p qs

none_left : (stage : Stage) → calls_left stage ≡ 0 → (stage ≡ holds) ⊎ (stage ≡ refused)
none_left (opening n) h = absurd (omega arith)
none_left (reading n) h = absurd (omega arith)
none_left (removing n) h = absurd (omega arith)
none_left writing h = absurd (omega arith)
none_left holds h = inl refl
none_left refused h = inr refl

module _ (alive : ℕ → Bool) where
  step-calls_left :
      (p : ℕ) (stage : Stage) (file : Option LockFile)
      → calls_left (step alive p stage file).0 ≤ calls_left stage - 1
  unfolding step
  step-calls_left p (opening zero) file = omega arith
  step-calls_left p (opening (suc n)) none = omega arith
  step-calls_left p (opening (suc n)) (some f) = omega arith
  step-calls_left p (reading n) file = elim (Bool-cases (is_taken alive file)) [
    | inl h ↦ rw h (omega arith)
    | inr h ↦ rw h (omega arith)
  ]
  step-calls_left p (removing n) file = omega arith
  step-calls_left p writing file = omega arith
  step-calls_left p holds file = omega arith
  step-calls_left p refused file = omega arith

  turn-calls_left :
      (q p : ℕ) (s : System)
      → calls_left ((turn alive q s).stages p) ≤ calls_left (s.stages p) - (if p == q then 1 else 0)
  unfolding turn
  turn-calls_left q p s = elim (Bool-cases (p == q)) [
    | inl h ↦ rw h (
        subst (λ k. calls_left (step alive q (s.stages q) s.file).0 ≤ calls_left (s.stages k) - 1)
          (sym ((==_iff p q).0 h)) (step-calls_left q (s.stages q) s.file))
    | inr h ↦ rw h (omega arith)
  ]

  turns-calls_left :
      (ps : List ℕ) (p : ℕ) (s : System)
      → calls_left ((turns alive ps s).stages p) ≤ calls_left (s.stages p) - count p ps
  unfolding turns
  turns-calls_left [] p s = omega arith
  turns-calls_left (q ∷ ps) p s =
      omega (arith, turn-calls_left q p s, turns-calls_left ps p (turn alive q s))

  -- However the calls of the processes are mixed, a process that has made seven of its own has the lock
  -- or is refused.
  pub turns-IsDone :
      (ps : List ℕ) (p : ℕ) (s : System)
      → s.stages p ≡ begins
      → 7 ≤ count p ps
      → ((turns alive ps s).stages p ≡ holds) ⊎ ((turns alive ps s).stages p ≡ refused)
  turns-IsDone ps p s b h =
      none_left ((turns alive ps s).stages p)
        (omega (arith, turns-calls_left ps p s, ap calls_left b, h))
