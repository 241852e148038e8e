-- ===== src/Capabilities/Registry.antt =====
-- buster/capabilities/base.py and registry.py: the capabilities, the actions that they serve, and
-- the dispatch of a call through the permission gate, elevation, events and the audit. Data are of
-- any type `D`, extra parameters of any type `V`. What a dispatch does to the outside is the list
-- of its effects, in order.
pub mod Gate
pub mod Lifecycle
pub mod Actions
pub mod Shutdown
mod Tests
use aioperator.Prelude.{
  ◌≡◌, Bool, true, false, not, ◌&&◌, ◌||◌, Option, none, some, List, [], ◌∷◌, ◌++◌, map, String,
  str_eq, fstring, if◌then◌else◌, get_or, keep, ◌⊎◌, inl, inr,
}
use aioperator.Dict.{Dict, get, put, remove, has, string_eq}
use aioperator.Security.Context.{
  Field, other, Inputs, ExecutionContext, or_text, from_inputs, as_dict,
}
use aioperator.Security.Elevation.{ElevationManager, requires_elevation, approve}
use aioperator.Kernel.Permissions.{Permissions, check}

pub record CapabilityContext (V : Type 0) : Type 0 where
  pub action : String
  pub scope : Option String
  pub extra : Dict String V
  pub execution : ExecutionContext V

pub record CapabilityResult (D : Type 0) : Type 0 where
  pub success : Bool
  pub value : Option D
  pub error : Option String

-- What `invoke` does: it returns a result, some other value, or raises an exception of a type.
pub data Invocation (D : Type 0) : Type 0 where
  returns : CapabilityResult D → Invocation D
  returns_value : D → Invocation D
  raises : String → String → Invocation D

pub record Capability (V D : Type 0) : Type 0 where
  pub name : String
  pub actions : List String
  pub invoke : CapabilityContext V → Invocation D

-- The parts of the kernel that a dispatch uses.
pub record KernelView (V : Type 0) : Type 0 where
  pub permissions : Permissions (Dict String (Field V))
  pub elevation : ElevationManager V
  pub has_audit : Bool
  pub router_running : Bool

pub record CapabilityRegistry (V D : Type 0) : Type 0 where
  pub capabilities : Dict String (Capability V D)
  pub action_map : Dict String String
  pub kernel : Option (KernelView V)

pub data Effect (V : Type 0) : Type 0 where
  registered : String → List String → Effect V
  calling : String → Dict String (Field V) → Effect V
  invoked : String → CapabilityContext V → Effect V
  succeeded : String → String → Effect V
  failed : String → String → String → Effect V
  audited : (kind actor action : String) (scope error : Option String) → Effect V
  closed : String → Effect V

pub data RegistryError : Type 0 where
  already_registered : String → RegistryError
  unknown_capability : String → RegistryError

abbrev pub map_actions : String → List String → Dict String String → Dict String String
map_actions name [] m = m
map_actions name (a ∷ actions) m = map_actions name actions (put a name m)

-- The actions whose owner is another capability.
unfoldable pub without_owner : String → Dict String String → Dict String String
without_owner name m = keep (λ e. not (str_eq e.1 name)) m

module _ {D : Type 0} where
  abbrev pub result_ok : Option D → CapabilityResult D
  result_ok value = record { success = true; value = value; error = none }

  abbrev pub result_fail : String → CapabilityResult D
  result_fail error = record { success = false; value = none; error = some error }

module _ {V : Type 0} where
  abbrev pub router_on : Option (KernelView V) → Bool
  router_on none = false
  router_on (some k) = k.router_running

  abbrev pub audit_on : Option (KernelView V) → Bool
  audit_on none = false
  audit_on (some k) = k.has_audit

  -- `_emit` and `_audit`
  abbrev pub emit : Option (KernelView V) → Effect V → List (Effect V)
  emit kernel e = if router_on kernel then e ∷ [] else []

  abbrev pub audit : Option (KernelView V) → Effect V → List (Effect V)
  audit kernel e = if audit_on kernel then e ∷ [] else []

  -- `dict.update`
  abbrev pub update : Dict String (Field V) → Dict String V → Dict String (Field V)
  update d [] = d
  update d ((k, v) ∷ extra) = update (put k (other v) d) extra

  -- The gate: `none` lets the call pass, `some reason` refuses it.
  unfoldable pub gate :
      Option (KernelView V)
      → String
      → Option String
      → Dict String V
      → ExecutionContext V
      → Option String
  gate none action scope extra execution = none
  gate (some k) action scope extra execution =
      let d = check action scope (update (as_dict execution) extra) k.permissions in
      if d.allowed
      then none
      else if requires_elevation action k.elevation
          && approve action (as_dict execution) k.elevation
      then none
      else some d.reason

module _ {V D : Type 0} where
  unfoldable pub register :
      Capability V D
      → CapabilityRegistry V D
      → (RegistryError ⊎ CapabilityRegistry V D) × List (Effect V)
  register c r = if has c.name r.capabilities then (inl (already_registered c.name), []) else (
    inr (record r {
      capabilities = put c.name c r.capabilities;
      action_map = map_actions c.name c.actions r.action_map;
    }),
    emit r.kernel (registered c.name c.actions),
  )

  unfoldable pub unregister :
      String → CapabilityRegistry V D → (RegistryError ⊎ CapabilityRegistry V D) × List (Effect V)
  unfolding without_owner
  unregister name r =
      if has name r.capabilities
      then (
        inr (record r {
          capabilities = remove name r.capabilities;
          action_map = without_owner name r.action_map;
        }),
        closed name ∷ [],
      )
      else (inl (unknown_capability name), [])

  unfoldable pub find_capability : String → CapabilityRegistry V D → Option (Capability V D)
  find_capability action r = elim (get action r.action_map) [
    | none ↦ none
    | some owner ↦ if str_eq owner "" then none else get owner r.capabilities
  ]

  unfoldable pub finish_success :
      (kernel : Option (KernelView V)) (action name : String)
      → CapabilityResult D
      → ExecutionContext V
      → CapabilityResult D × List (Effect V)
  finish_success kernel action name result execution = (
    result,
    emit kernel (succeeded action name)
        ++ audit kernel (
            audited "capability.succeeded" execution.security.actor action execution.security.scope
              none),
  )

  unfoldable pub finish_failure :
      (kernel : Option (KernelView V)) (action name error : String)
      → ExecutionContext V
      → CapabilityResult D × List (Effect V)
  finish_failure kernel action name error execution = (
    result_fail error,
    emit kernel (failed action name error)
        ++ audit kernel (
            audited "capability.failed" execution.security.actor action execution.security.scope
              (some error)),
  )

  -- From the return of `invoke` on.
  unfoldable pub conclude :
      Option (KernelView V)
      → String
      → String
      → ExecutionContext V
      → Invocation D
      → CapabilityResult D × List (Effect V)
  unfolding finish_success finish_failure
  conclude kernel action name execution (raises type message) =
      finish_failure kernel action name (fstring (type ∷ ": " ∷ message ∷ [])) execution
  conclude kernel action name execution (returns_value value) =
      finish_success kernel action name (result_ok (some value)) execution
  conclude kernel action name execution (returns result) =
      if result.success
      then finish_success kernel action name result execution
      else finish_failure kernel action name (or_text result.error "capability failed") execution

  -- `call` behind the lookup of the capability.
  unfoldable pub dispatch :
      Capability V D
      → String
      → Option String
      → Dict String V
      → ExecutionContext V
      → Option (KernelView V)
      → CapabilityResult D × List (Effect V)
  dispatch c action scope extra execution kernel =
      let ctx : CapabilityContext V = record {
        action = action;
        scope = scope;
        extra = extra;
        execution = execution;
      } in
      let outcome : CapabilityResult D × List (Effect V) =
        elim (gate kernel action scope extra execution) [
          | some reason ↦
              finish_failure kernel action c.name
                (fstring ("Permission denied for action '" ∷ action ∷ "': " ∷ reason ∷ []))
                execution
          | none ↦
              let done = conclude kernel action c.name execution (c.invoke ctx) in
              (done.0, invoked c.name ctx ∷ done.1)
        ] in
      (outcome.0, emit kernel (calling action (as_dict execution)) ++ outcome.1)

  unfoldable pub call :
      (action : String) (scope : Option String) (extra : Option (Dict String V))
      (context : Option (Inputs V))
      → CapabilityRegistry V D
      → CapabilityResult D × List (Effect V)
  call action scope extra context r = elim (find_capability action r) [
    | none ↦ (result_fail (fstring ("No capability provides action '" ∷ action ∷ "'" ∷ [])), [])
    | some c ↦
        dispatch c action scope (get_or extra []) (from_inputs action scope "user" "cli" context)
          r.kernel
  ]
