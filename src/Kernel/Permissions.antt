-- ===== src/Kernel/Permissions.antt =====
-- buster/kernel/permissions.py: the policy store and the allow/deny gate. The context dictionary
-- that evaluators read is of any type `C`. An evaluator returns True, False or something else, or
-- raises. The persistence hook is outside: `persisted` holds the rows of every call of it, and
-- what the hook raises is only logged.
pub mod Decisions
pub mod History
pub mod Persistence
mod Tests
use aioperator.Prelude.{
  Bool, true, false, not, ◌&&◌, ◌||◌, Option, none, some, List, [], ◌∷◌, ◌++◌, map, String, str_eq,
  fstring, if◌then◌else◌, keep, first, get_or,
}

pub record PermissionRule : Type 0 where
  pub action : String
  pub allow : Bool
  pub scope : Option String
  pub note : String

pub record PermissionDecision : Type 0 where
  pub action : String
  pub allowed : Bool
  pub reason : String
  pub source : String

-- A persisted rule: a dictionary in which any field may be missing.
pub record Row : Type 0 where
  pub action : Option String
  pub allow : Option Bool
  pub scope : Option String
  pub note : Option String

pub data Verdict : Type 0 where
  approved refused undecided raised : Verdict

abbrev pub Evaluator : Type 0 → Type 0
Evaluator C = String → Option String → C → Verdict

pub record Permissions (C : Type 0) : Type 0 where
  pub rules : List PermissionRule
  pub evaluators : List (Evaluator C)
  pub has_hook : Bool
  pub persisted : List (List Row)

-- `PermissionDenied` carries its message.
pub data Gate : Type 0 where
  passes : Gate
  permission_denied : String → Gate

to_row : PermissionRule → Row
to_row r = record {
  action = some r.action;
  allow = some r.allow;
  scope = r.scope;
  note = some r.note;
}

of_row : Row → PermissionRule
of_row row = record {
  action = get_or row.action "";
  allow = get_or row.allow false;
  scope = row.scope;
  note = get_or row.note "";
}

-- `applies(rule)`: an empty or missing scope in the rule fits every call.
unfoldable pub applies : Option String → PermissionRule → Bool
applies scope rule = elim rule.scope [
  | none ↦ true
  | some own ↦ str_eq own "" || elim scope [ none ↦ false | some asked ↦ str_eq own asked ]
]

unfoldable pub matches : String → Option String → PermissionRule → Bool
unfolding applies
matches action scope rule = str_eq rule.action action && applies scope rule

abbrev pub decision : String → Bool → String → String → PermissionDecision
decision action allowed reason source = record {
  action = action;
  allowed = allowed;
  reason = reason;
  source = source;
}

module _ {C : Type 0} where
  pub init : Bool → Permissions C
  init hook = record { rules = []; evaluators = []; has_hook = hook; persisted = [] }

  unfoldable pub to_rules : Permissions C → List Row
  unfolding to_row
  to_rules p = map to_row p.rules

  unfoldable pub from_rules : List Row → Permissions C → Permissions C
  unfolding of_row
  from_rules rows p = record p { rules = map of_row rows }

  unfoldable pub notify : Permissions C → Permissions C
  unfolding to_rules
  notify p = if p.has_hook then record p { persisted = p.persisted ++ to_rules p ∷ [] } else p

  -- The append that `grant` and `deny` share.
  abbrev add : PermissionRule → Permissions C → Permissions C
  add rule p = record p { rules = p.rules ++ rule ∷ [] }

  unfoldable pub grant : String → Option String → String → Permissions C → Permissions C
  unfolding notify
  grant action scope note p =
      notify (add (record { action = action; allow = true; scope = scope; note = note }) p)

  unfoldable pub deny : String → Option String → String → Permissions C → Permissions C
  unfolding notify
  deny action scope note p =
      notify (add (record { action = action; allow = false; scope = scope; note = note }) p)

  unfoldable pub register_evaluator : Evaluator C → Permissions C → Permissions C
  register_evaluator evaluator p = record p { evaluators = p.evaluators ++ evaluator ∷ [] }

  unfoldable pub clear : Permissions C → Permissions C
  unfolding notify
  clear p = notify (record p { rules = []; evaluators = [] })

  -- The loop over the evaluators, and the default behind it.
  unfoldable pub consult : String → Option String → C → List (Evaluator C) → PermissionDecision
  consult action scope context [] = decision action false "denied by default" "default"
  consult action scope context (evaluator ∷ rest) = elim (evaluator action scope context) [
    | approved ↦ decision action true "evaluator approved" "evaluator"
    | refused ↦ decision action false "evaluator denied" "evaluator"
    | undecided ↦ consult action scope context rest
    | raised ↦ consult action scope context rest
  ]

  unfoldable pub check : String → Option String → C → Permissions C → PermissionDecision
  check action scope context p =
      let rule_matches = keep (matches action scope) p.rules in
      elim (first (λ r. not r.allow) rule_matches) [
        | some rule ↦ decision action false rule.note "policy"
        | none ↦ elim (first (λ r. r.allow) rule_matches) [
          | some rule ↦ decision action true rule.note "policy"
          | none ↦ consult action scope context p.evaluators
        ]
      ]

  unfoldable pub require : String → Option String → C → Permissions C → Gate
  require action scope context p =
      let d = check action scope context p in
      if d.allowed
      then passes
      else permission_denied
          (fstring ("Permission denied for action '" ∷ action ∷ "': " ∷ d.reason ∷ []))
