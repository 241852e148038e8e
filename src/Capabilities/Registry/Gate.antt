-- ===== src/Capabilities/Registry/Gate.antt =====
-- Which calls reach a capability.
use mathlib.Core.List.{Mem}
use aioperator.Prelude.{
  ℕ, suc, ◌≡◌, refl, Bool, true, false, ◌&&◌, ◌||◌, Option, none, some, List, [], ◌∷◌, String,
  if◌then◌else◌, arith, get_or, Option-cases, inl, inr, fstring,
}
use aioperator.Dict.{Dict, string_eq}
use aioperator.Security.Context.{Inputs, ExecutionContext, from_inputs, as_dict}
use aioperator.Security.Elevation.{requires_elevation, approve}
use aioperator.Kernel.Permissions.{check}
use aioperator.Kernel.Permissions.Decisions.{denied_by-mem, check-allowed}
use aioperator.Capabilities.Registry.{
  Capability, CapabilityRegistry, KernelView, Invocation, returns, returns_value, raises, Effect,
  invoked, update, find_capability, gate, conclude, dispatch, call, finish_failure,
}

module _ {V : Type 0} where
  -- How many capabilities were invoked.
  abbrev pub invocations : List (Effect V) → ℕ
  invocations [] = 0
  invocations (invoked _ _ ∷ effects) = suc (invocations effects)
  invocations (_ ∷ effects) = invocations effects

  -- What lets a call pass: no kernel, a permission, or the approved elevation of a sensitive action.
  abbrev pub permitted :
      Option (KernelView V) → String → Option String → Dict String V → ExecutionContext V → Bool
  permitted none action scope extra execution = true
  permitted (some k) action scope extra execution =
      (check action scope (update (as_dict execution) extra) k.permissions).allowed
      || (requires_elevation action k.elevation && approve action (as_dict execution) k.elevation)

  invocations-finish_failure :
      (D : Type 0) (kernel : Option (KernelView V)) (action name error : String)
      (execution : ExecutionContext V)
      → invocations (finish_failure {D = D} kernel action name error execution).1 ≡ 0
  unfolding finish_failure
  invocations-finish_failure D none action name error execution = refl
  invocations-finish_failure D (some k) action name error execution = ground arith

module _ {V D : Type 0} where
  invocations-conclude :
      (kernel : Option (KernelView V)) (action name : String) (execution : ExecutionContext V)
      (i : Invocation D)
      → invocations (conclude kernel action name execution i).1 ≡ 0
  unfolding conclude
  invocations-conclude none action name execution (returns r) = ground arith
  invocations-conclude none action name execution (returns_value v) = ground arith
  invocations-conclude none action name execution (raises t m) = ground arith
  invocations-conclude (some k) action name execution (returns r) = ground arith
  invocations-conclude (some k) action name execution (returns_value v) = ground arith
  invocations-conclude (some k) action name execution (raises t m) = ground arith

  invocations-dispatch :
      (c : Capability V D) (action : String) (scope : Option String) (extra : Dict String V)
      (execution : ExecutionContext V) (kernel : Option (KernelView V))
      → invocations (dispatch c action scope extra execution kernel).1
        ≡ (if permitted kernel action scope extra execution then 1 else 0)
  unfolding dispatch gate
  invocations-dispatch c action scope extra execution none =
      omega (arith, invocations-conclude none action c.name execution (c.invoke _))
  invocations-dispatch c action scope extra execution (some k) = ground (
    arith,
    invocations-finish_failure D (some k) action c.name
        (fstring (
          "Permission denied for action '"
          ∷ action
          ∷ "': "
          ∷ (check action scope (update (as_dict execution) extra) k.permissions).reason
          ∷ []))
        execution,
    invocations-conclude (some k) action c.name execution (
        c.invoke (record { action = action; scope = scope; extra = extra; execution = execution })),
  )

  -- A call invokes one capability if its action has one and the call is permitted, and none
  -- otherwise. It is permitted when the registry has no kernel, when the permissions allow it, or
  -- when the action is sensitive and its elevation is approved.
  pub invocations-call :
      (action : String) (scope : Option String) (extra : Option (Dict String V))
      (context : Option (Inputs V)) (r : CapabilityRegistry V D)
      → invocations (call action scope extra context r).1 ≡ elim (find_capability action r) [
        | none ↦ 0
        | some _ ↦
            if permitted r.kernel action scope
              (get_or extra [])
              (from_inputs action scope "user" "cli" context)
            then 1
            else 0
      ]
  unfolding call
  invocations-call action scope extra context r = elim (Option-cases (find_capability action r)) [
    | inl e ↦ rw (e, call)
    | inr (c, e) ↦ rw (e, call) (invocations-dispatch c action scope (get_or extra []) _ r.kernel)
  ]

  -- A rule with no scope that denies an action keeps every call of it from every capability,
  -- whatever its scope, parameters and context, unless the action is sensitive.
  pub denied_never_invoked :
      (action note : String) (scope : Option String) (extra : Option (Dict String V))
      (context : Option (Inputs V)) (r : CapabilityRegistry V D) (k : KernelView V)
      → r.kernel ≡ some k
      → Mem
          (record { action = action; allow = false; scope = none; note = note })
          k.permissions.rules
      → requires_elevation action k.elevation ≡ false
      → invocations (call action scope extra context r).1 ≡ 0
  denied_never_invoked action note scope extra context r k bound rule plain =
      let inputs = get_or extra [] in
      let execution = from_inputs action scope "user" "cli" context in
      ground (
        arith,
        invocations-call action scope extra context r,
        check-allowed action scope (update (as_dict execution) inputs) k.permissions,
        denied_by-mem action note scope k.permissions.rules rule,
      )
