-- ===== src/Agents/Orchestrator/Planned.antt =====
-- buster/agents/orchestration.py: which actions a run calls, and what its result holds.
use aioperator.Prelude.{
  ◌≡◌, ◌⊎◌, Bool, true, inl, inr, Option, none, some, List, [], ◌∷◌, String, take, length, map,
}
use aioperator.Agents.{done, failed, result, Host}
use aioperator.Agents.Orchestrator.{PlanAction, Executed, Run, max_steps}

module _ {P : Type 0} where
  -- Every action passes the test or is the one of the built-in plan.
  abbrev pub AllAllowed : (String → Bool) → List (PlanAction P) → Type 0
  AllAllowed knows [] = Unit
  AllAllowed knows (a ∷ plan) =
      ((knows a.action ≡ true) ⊎ (a.action ≡ "android.info")) × AllAllowed knows plan

  abbrev IsAllowed : (String → Bool) → String ⊎ List (PlanAction P) → Type 0
  IsAllowed knows (inl e) = Unit
  IsAllowed knows (inr plan) = AllAllowed knows plan

  abbrev pub actions : List (PlanAction P) → List String
  actions plan = map (λ a. a.action) plan

abbrev pub called : List Executed → List String
called xs = map (λ x. x.action) xs

-- `executed` are the first results of the steps, all of them where nothing was raised.
abbrev Follows : Option String → List String → List String → Type 0
Follows none steps executed = executed ≡ steps
Follows (some e) steps executed = executed ≡ take (length executed) steps

module _ {K P : Type 0} (host : Host K P) where
  -- What the result of a run says of its plan and its calls; a failed run has none.
  abbrev pub IsCarriedOut : (String → Bool) → Run P → Type 0
  IsCarriedOut knows r = elim r.result [
    | none ↦ r.status ≡ failed
    | some (plan, executed) ↦
        (r.status ≡ done)
        × (AllAllowed knows plan × (called executed ≡ take max_steps (actions plan)))
  ]
