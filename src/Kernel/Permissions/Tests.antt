-- ===== src/Kernel/Permissions/Tests.antt =====
-- The gate on small stores, and the theorems about it at those stores.

use aioperator.Prelude.{◌≡◌, refl, true, false, none, some, [], ◌∷◌}
use aioperator.Kernel.Permissions.{
  Permissions, PermissionRule, approved, undecided, raised, matches, check, consult, deny, require,
  passes, permission_denied, decision, clear,
}
use aioperator.Kernel.Permissions.Decisions.{check-allowed}
use aioperator.Kernel.Permissions.History.{run, granting, deny_final}

program : Unit {0}
unfolding matches check consult require clear
program = tt

abbrev read_rule : PermissionRule
read_rule = record { action = "fs.read"; allow = true; scope = none; note = "ok" }

abbrev jail_rule : PermissionRule
jail_rule = record { action = "fs.read"; allow = false; scope = some "/etc"; note = "jailed" }

abbrev sample : Permissions Unit
sample = record {
  rules = read_rule ∷ jail_rule ∷ [];
  evaluators = (λ _ _ _. raised) ∷ (λ _ _ _. undecided) ∷ (λ _ _ _. approved) ∷ [];
  has_hook = false;
  persisted = [];
}

abbrev swapped : Permissions Unit
swapped = record sample { rules = jail_rule ∷ read_rule ∷ [] }

gate_tests :
    (require "fs.read" (some "/home") tt sample ≡ passes)
    × (require "fs.read" (some "/etc") tt sample
        ≡ permission_denied "Permission denied for action 'fs.read': jailed")
    × (check "net.get" none tt sample ≡ decision "net.get" true "evaluator approved" "evaluator")
    × (check "net.get" none tt (clear sample)
        ≡ decision "net.get" false "denied by default" "default")
unfolding program
gate_tests = (refl, refl, refl, refl)

check-allowed_example : (check "fs.read" (some "/etc") tt sample).allowed ≡ false
unfolding matches
check-allowed_example = check-allowed "fs.read" (some "/etc") tt sample

deny_final_example :
    (check "net.get" none tt
      (run (granting "net.get" none "" ∷ []) (deny "net.get" none "" sample))).allowed
    ≡ false
deny_final_example = deny_final "net.get" "" (granting "net.get" none "" ∷ []) sample none tt
