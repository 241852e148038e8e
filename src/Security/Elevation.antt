-- ===== src/Security/Elevation.antt =====
-- buster/security/elevation.py. A set of actions is a function into Bool; an approval callback
-- returns a truth value or raises.
use aioperator.Prelude.{
  Bool, true, false, Option, none, some, List, [], ◌∷◌, String, str_eq, any, if◌then◌else◌,
}
use aioperator.Dict.{Dict}
use aioperator.Security.Context.{Field}

pub data Approval : Type 0 where
  grants refuses raises : Approval

abbrev pub ApprovalCallback : Type 0 → Type 0
ApprovalCallback V = String → Dict String (Field V) → Approval

pub record ElevationManager (V : Type 0) : Type 0 where
  pub sensitive : String → Bool
  pub approval : Option (ApprovalCallback V)

abbrev pub sensitive_default : List String
sensitive_default =
    "fs.delete" ∷ "config.set" ∷ "permission.grant" ∷ "permission.deny" ∷ "process.kill" ∷ []

module _ {V : Type 0} where
  unfoldable pub manager : Option (String → Bool) → Option (ApprovalCallback V) → ElevationManager V
  manager sensitive approval = record {
    sensitive = elim sensitive [
      | none ↦ (λ a. any sensitive_default (λ s. str_eq a s))
      | some set ↦ set
    ];
    approval = approval;
  }

  unfoldable pub requires_elevation : String → ElevationManager V → Bool
  requires_elevation action m = m.sensitive action

  unfoldable pub mark_sensitive : String → Bool → ElevationManager V → ElevationManager V
  mark_sensitive action sensitive m = record m {
    sensitive = λ a. if str_eq a action then sensitive else m.sensitive a;
  }

  -- No callback, a refusal and an exception all mean no.
  unfoldable pub approve : String → Dict String (Field V) → ElevationManager V → Bool
  approve action context m = elim m.approval [
    | none ↦ false
    | some ask ↦ elim (ask action context) [ grants ↦ true | refuses ↦ false | raises ↦ false ]
  ]

  unfoldable pub approve_scripted : List String → ApprovalCallback V
  approve_scripted allowlist action context =
      if any allowlist (λ s. str_eq action s) then grants else refuses
