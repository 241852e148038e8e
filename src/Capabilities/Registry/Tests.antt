-- ===== src/Capabilities/Registry/Tests.antt =====
-- A registry with one capability, and the theorems about it.
use mathlib.Core.List.{mem-cons_self, mem-cons_of_mem}
use aioperator.Prelude.{
  ◌≡◌, refl, true, false, none, some, [], ◌∷◌, String, inr, map, ◌⊎◌, str_eq, if◌then◌else◌,
}
use aioperator.Dict.{get, put, remove, string_eq}
use aioperator.Security.Context.{from_inputs, as_dict}
use aioperator.Security.Elevation.{requires_elevation, approve, grants}
use aioperator.Kernel.Permissions.{PermissionRule, check, consult, matches}
use aioperator.Capabilities.Registry.{
  Capability, CapabilityRegistry, KernelView, returns_value, raises, result_fail, result_ok,
  register, unregister, find_capability, call, dispatch, gate, conclude, without_owner,
}
use aioperator.Capabilities.Registry.Gate.{invocations, invocations-call, denied_never_invoked}
use aioperator.Capabilities.Registry.Lifecycle.{kind, calls, invokes, ending, call_kinds}
use aioperator.Capabilities.Registry.Actions.{
  Reach, IsConsistent, empty, registers, Reach-IsConsistent,
}

program : Unit {0}
unfolding get put remove from_inputs as_dict requires_elevation approve check consult matches
    register unregister find_capability call dispatch gate conclude without_owner
program = tt

abbrev deny_delete : PermissionRule
deny_delete = record { action = "fs.delete"; allow = false; scope = none; note = "never" }

abbrev deny_read : PermissionRule
deny_read = record { action = "fs.read"; allow = false; scope = none; note = "no" }

abbrev allow_list : PermissionRule
allow_list = record { action = "fs.list"; allow = true; scope = none; note = "" }

abbrev kernel : KernelView String
kernel = record {
  permissions = record {
    rules = deny_delete ∷ deny_read ∷ allow_list ∷ [];
    evaluators = [];
    has_hook = false;
    persisted = [];
  };
  elevation = record { sensitive = λ a. str_eq a "fs.delete"; approval = some (λ _ _. grants) };
  has_audit = true;
  router_running = true;
}

abbrev files : Capability String String
files = record {
  name = "filesystem";
  actions = "fs.read" ∷ "fs.delete" ∷ "fs.list" ∷ [];
  invoke =
      λ ctx. if str_eq ctx.action "fs.list" then raises "OSError" "gone" else returns_value "done";
}

abbrev bare : CapabilityRegistry String String
bare = record { capabilities = []; action_map = []; kernel = some kernel }

abbrev registry : CapabilityRegistry String String
registry = record {
  capabilities = ("filesystem", files) ∷ [];
  action_map =
      ("fs.read", "filesystem") ∷ ("fs.delete", "filesystem") ∷ ("fs.list", "filesystem") ∷ [];
  kernel = some kernel;
}

call_tests :
    ((register files bare).0 ≡ inr registry)
    × ((call "fs.delete" none none none registry).0 ≡ result_ok (some "done"))
    × ((call "fs.read" none none none registry).0
        ≡ result_fail "Permission denied for action 'fs.read': no")
    × ((call "fs.list" none none none registry).0 ≡ result_fail "OSError: gone")
    × ((call "fs.move" none none none registry).0
        ≡ result_fail "No capability provides action 'fs.move'")
unfolding program
call_tests = (refl, refl, refl, refl, refl)

invocations-call_example : invocations (call "fs.delete" none none none registry).1 ≡ 1
unfolding program
invocations-call_example = invocations-call "fs.delete" none none none registry

denied_never_invoked_example : invocations (call "fs.read" (some "/tmp") none none registry).1 ≡ 0
unfolding requires_elevation
denied_never_invoked_example =
    denied_never_invoked "fs.read" "no" (some "/tmp") none none registry kernel refl
      (mem-cons_of_mem deny_delete mem-cons_self) refl

call_kinds_example :
    let outcome = call "fs.list" none none none registry in
    (map kind outcome.1 ≡ calls ∷ invokes ∷ ending outcome.0.success)
    ⊎ ((map kind outcome.1 ≡ calls ∷ ending outcome.0.success) × (outcome.0.success ≡ false))
unfolding program
call_kinds_example = call_kinds kernel refl refl "fs.list" none none none registry files refl refl

registry-Reach : Reach registry
unfolding program
registry-Reach = registers {r = bare} files (empty bare refl refl) refl

Reach-IsConsistent_example : IsConsistent registry
Reach-IsConsistent_example = Reach-IsConsistent registry-Reach

abbrev emptied : CapabilityRegistry String String
emptied = record { capabilities = []; action_map = []; kernel = some kernel }
