-- ===== src/Kernel/Permissions/Decisions.antt =====
-- `Permissions.check` against a description that has no loop and no order.
use mathlib.Core.List.{Perm, Mem}
use aioperator.Prelude.{
  ◌≡◌, refl, Bool, true, false, not, ◌&&◌, ◌||◌, Option, none, List, [], ◌∷◌, ◌++◌, map, String,
  if◌then◌else◌, keep, first, any, any-append, any-perm, any-mem, eq_refl, arith, is_some,
}
use aioperator.Kernel.Permissions.{
  Permissions, PermissionRule, Evaluator, Verdict, approved, refused, undecided, raised, matches,
  check, consult, grant, deny,
}

-- Some rule for the call forbids it, or allows it.
abbrev pub denied_by : String → Option String → List PermissionRule → Bool
denied_by action scope rules = any rules (λ r. matches action scope r && not r.allow)

abbrev pub allowed_by : String → Option String → List PermissionRule → Bool
allowed_by action scope rules = any rules (λ r. matches action scope r && r.allow)

-- A rule with no scope that denies an action denies it in every scope.
pub denied_by-mem :
    (action note : String) (scope : Option String) (rules : List PermissionRule)
    → Mem (record { action = action; allow = false; scope = none; note = note }) rules
    → denied_by action scope rules ≡ true
unfolding matches
denied_by-mem action note scope rules m = any-mem _ rules _ m (rw eq_refl)

-- The first of the verdicts that is an answer is an approval.
abbrev pub first_answer : List Verdict → Bool
first_answer [] = false
first_answer (approved ∷ rest) = true
first_answer (refused ∷ rest) = false
first_answer (undecided ∷ rest) = first_answer rest
first_answer (raised ∷ rest) = first_answer rest

any-keep {ℓ} :
    {A : Type ℓ} (p q : A → Bool) (xs : List A)
    → is_some (first q (keep p xs)) ≡ any xs (λ x. p x && q x)
any-keep p q [] = refl
any-keep p q (x ∷ xs) = ground (arith, any-keep p q xs)

module _ {C : Type 0} (action : String) (scope : Option String) (context : C) where
  abbrev pub verdicts : List (Evaluator C) → List Verdict
  verdicts = map (λ e. e action scope context)

  consult-first_answer :
      (es : List (Evaluator C))
      → (consult action scope context es).allowed ≡ first_answer (verdicts es)
  unfolding consult
  consult-first_answer [] = refl
  consult-first_answer (e ∷ es) = ground (arith, consult-first_answer es)

  -- A call is allowed exactly when no rule for it forbids it and either some rule allows it or,
  -- where no rule allows it, the first evaluator with an answer approves; an evaluator that raises
  -- counts as having no answer.
  pub check-allowed :
      (p : Permissions C)
      → (check action scope context p).allowed ≡ (
          not (denied_by action scope p.rules)
          && (allowed_by action scope p.rules || first_answer (verdicts p.evaluators)))
  unfolding check
  check-allowed p = ground (
    arith,
    any-keep (matches action scope) (λ r. not r.allow) p.rules,
    any-keep (matches action scope) (λ r. r.allow) p.rules,
    consult-first_answer p.evaluators,
  )

  -- The order in which rules were added never matters: two stores with the same evaluators whose
  -- rules are permutations of one another allow the same calls.
  pub check-perm :
      (p q : Permissions C)
      → Perm p.rules q.rules
      → p.evaluators ≡ q.evaluators
      → (check action scope context p).allowed ≡ (check action scope context q).allowed
  check-perm p q rules evaluators = ground (
    arith,
    check-allowed p,
    check-allowed q,
    any-perm (λ r. matches action scope r && not r.allow) rules,
    any-perm (λ r. matches action scope r && r.allow) rules,
    evaluators,
  )

  -- The proof that `grant` and `deny` share: both end in one more rule.
  check-added :
      (rule : PermissionRule) (p q : Permissions C)
      → q.rules ≡ p.rules ++ rule ∷ []
      → q.evaluators ≡ p.evaluators
      → (check action scope context q).allowed ≡ (
          if matches action scope rule
          then rule.allow && not (denied_by action scope p.rules)
          else (check action scope context p).allowed)
  check-added rule p q rules evaluators =
      rw (check-allowed q, check-allowed p, rules, evaluators, any-append, any-append)
        (ground arith)

  -- A new allowing rule: a call that it fits is allowed unless a rule for the call forbids it, and
  -- every other call is decided as before.
  pub check-grant :
      (granted : String) (own : Option String) (note : String) (p : Permissions C)
      → (check action scope context (grant granted own note p)).allowed ≡ (
          if matches action scope
            (record { action = granted; allow = true; scope = own; note = note })
          then not (denied_by action scope p.rules)
          else (check action scope context p).allowed)
  unfolding grant
  check-grant granted own note p = ground (
    arith,
    check-added (record { action = granted; allow = true; scope = own; note = note }) p
        (grant granted own note p),
  )

  -- A new forbidding rule: a call that it fits is denied, and every other call is decided as before.
  pub check-deny :
      (denied : String) (own : Option String) (note : String) (p : Permissions C)
      → (check action scope context (deny denied own note p)).allowed ≡ (
          if matches action scope
            (record { action = denied; allow = false; scope = own; note = note })
          then false
          else (check action scope context p).allowed)
  unfolding deny
  check-deny denied own note p = ground (
    arith,
    check-added (record { action = denied; allow = false; scope = own; note = note }) p
        (deny denied own note p),
  )
