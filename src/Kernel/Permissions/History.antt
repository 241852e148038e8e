-- ===== src/Kernel/Permissions/History.antt =====
-- What a denial does to every later call, whatever is granted after it.
use mathlib.Core.List.{append-nil}
use aioperator.Prelude.{
  sym, ◌≡◌, true, false, Option, none, List, [], ◌∷◌, ◌++◌, String, any-append, arith, eq_refl,
}
use aioperator.Kernel.Permissions.{
  Permissions, Evaluator, matches, check, grant, deny, register_evaluator, PermissionRule,
}
use aioperator.Kernel.Permissions.Decisions.{denied_by, check-allowed}

pub data Addition (C : Type 0) : Type 0 where
  granting denying : String → Option String → String → Addition C
  evaluating : Evaluator C → Addition C

module _ {C : Type 0} where
  unfoldable pub apply : Addition C → Permissions C → Permissions C
  apply (granting action scope note) = grant action scope note
  apply (denying action scope note) = deny action scope note
  apply (evaluating e) = register_evaluator e

  pub run : List (Addition C) → Permissions C → Permissions C
  run [] p = p
  run (a ∷ rest) p = run rest (apply a p)

  rules-deny :
      (action : String) (scope : Option String) (note : String) (p : Permissions C)
      → (deny action scope note p).rules
        ≡ p.rules ++ record { action = action; allow = false; scope = scope; note = note } ∷ []
  unfolding deny
  rules-deny action scope note p = ground arith

  rules-apply :
      (a : Addition C) (p : Permissions C)
      → (more : List PermissionRule) × ((apply a p).rules ≡ p.rules ++ more)
  unfolding apply grant register_evaluator
  rules-apply (granting g s n) p =
      (record { action = g; allow = true; scope = s; note = n } ∷ [], ground arith)
  rules-apply (denying g s n) p =
      (record { action = g; allow = false; scope = s; note = n } ∷ [], rules-deny g s n p)
  rules-apply (evaluating e) p = ([], sym (append-nil p.rules))

  denied_by-apply :
      (action : String) (scope : Option String) (a : Addition C) (p : Permissions C)
      → denied_by action scope p.rules ≡ true
      → denied_by action scope (apply a p).rules ≡ true
  denied_by-apply action scope a p h =
      let (more, e) = rules-apply a p in rw (e, any-append) (ground arith)

  denied_by-run :
      (action : String) (scope : Option String) (later : List (Addition C)) (p : Permissions C)
      → denied_by action scope p.rules ≡ true
      → denied_by action scope (run later p).rules ≡ true
  unfolding run
  denied_by-run action scope [] p h = h
  denied_by-run action scope (a ∷ later) p h =
      denied_by-run action scope later (apply a p) (denied_by-apply action scope a p h)

  denied_by-deny :
      (action : String) (scope : Option String) (note : String) (p : Permissions C)
      → denied_by action scope (deny action none note p).rules ≡ true
  unfolding matches
  denied_by-deny action scope note p = rw (rules-deny, any-append, eq_refl) (ground arith)

  -- Once an action has been denied with no scope, every call of it in every scope is denied,
  -- whatever rules and evaluators are added later.
  pub deny_final :
      (action note : String) (later : List (Addition C)) (p : Permissions C) (scope : Option String)
      (context : C)
      → (check action scope context (run later (deny action none note p))).allowed ≡ false
  deny_final action note later p scope context = ground (
    arith,
    check-allowed action scope context (run later (deny action none note p)),
    denied_by-run action scope later (deny action none note p) (denied_by-deny action scope note p),
  )
