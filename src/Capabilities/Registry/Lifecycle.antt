-- ===== src/Capabilities/Registry/Lifecycle.antt =====
-- The events and audit records of a call.
use aioperator.Prelude.{
  ◌≡◌, Bool, true, false, Option, none, some, List, [], ◌∷◌, map, String, str_eq, if◌then◌else◌,
  arith, get_or, Option-cases, inl, inr, ◌⊎◌,
}
use aioperator.Dict.{Dict, string_eq}
use aioperator.Security.Context.{Inputs, ExecutionContext, from_inputs}
use aioperator.Capabilities.Registry.{
  Capability, CapabilityRegistry, KernelView, Invocation, returns, returns_value, raises, Effect,
  registered, calling, invoked, succeeded, failed, audited, closed, find_capability, conclude,
  dispatch, call, finish_failure, gate,
}

pub data Kind : Type 0 where
  registers calls invokes succeeds fails audits_success audits_failure audits_other closes : Kind

-- An audit record by its own kind and its error text: one of a success has none, one of a failure has one.
abbrev audit_kind : String → Option String → Kind
audit_kind name none = if str_eq name "capability.succeeded" then audits_success else audits_other
audit_kind name (some _) = if str_eq name "capability.failed" then audits_failure else audits_other

-- What an effect is.
abbrev pub kind : {V : Type 0} → Effect V → Kind
kind (registered _ _) = registers
kind (calling _ _) = calls
kind (invoked _ _) = invokes
kind (succeeded _ _) = succeeds
kind (failed _ _ _) = fails
kind (audited name _ _ _ error) = audit_kind name error
kind (closed _) = closes

-- The events and records that end a call.
abbrev pub ending : Bool → List Kind
ending true = succeeds ∷ audits_success ∷ []
ending false = fails ∷ audits_failure ∷ []

module _ {V D : Type 0} (k : KernelView V) (on : k.router_running ≡ true)
    (audits : k.has_audit ≡ true) where
  conclude_kinds :
      (action name : String) (execution : ExecutionContext V) (i : Invocation D)
      → map kind (conclude (some k) action name execution i).1
        ≡ ending (conclude (some k) action name execution i).0.success
  unfolding conclude
  conclude_kinds action name execution (returns r) = ground arith
  conclude_kinds action name execution (returns_value v) = ground arith
  conclude_kinds action name execution (raises t m) = ground arith

  -- A call of an action that has a capability, on a kernel with a running event bus and an audit,
  -- has these effects in this order: the event that it begins, the invocation unless the call is
  -- refused, then exactly one event and one audit record, of success if its result is a success
  -- and of failure otherwise. A refused call is a failure.
  pub call_kinds :
      (action : String) (scope : Option String) (extra : Option (Dict String V))
      (context : Option (Inputs V)) (r : CapabilityRegistry V D) (c : Capability V D)
      → r.kernel ≡ some k
      → find_capability action r ≡ some c
      → let outcome = call action scope extra context r in
        (map kind outcome.1 ≡ calls ∷ invokes ∷ ending outcome.0.success)
        ⊎ ((map kind outcome.1 ≡ calls ∷ ending outcome.0.success) × (outcome.0.success ≡ false))
  unfolding call dispatch finish_failure
  call_kinds action scope extra context r c bound found =
      let execution = from_inputs action scope "user" "cli" context in
      elim (Option-cases (gate (some k) action scope (get_or extra []) execution)) [
        | inl e ↦ inl (
            ground (
              arith,
              conclude_kinds action c.name execution (
                  c.invoke (record {
                    action = action;
                    scope = scope;
                    extra = get_or extra [];
                    execution = execution;
                  })),
            ))
        | inr (reason, e) ↦ inr (ground arith, ground arith)
      ]
