-- ===== src/Intelligence/Plans.antt =====
-- buster/intelligence/plans.py: the registry of plans and its file. Parameters of a step are of any
-- type `V`; an observation is a text as the list of its code points; `now` is the time of the call and
-- `id` the identifier that `uuid4` gives. The file is the list of rows that `_save` wrote last.
pub mod Purge
mod Tests
use aioperator.Prelude.{
  ℕ, zero, suc, ◌+◌, ◌-◌, Bool, true, false, Option, none, some, List, [], ◌∷◌, ◌++◌, map, String,
  str_eq, if◌then◌else◌, keep, length, take, ltb, leb, ◌==◌, ℤ, pos, negsuc,
}
use aioperator.Dict.{Eq, Dict, get as find, put, remove, keys, values, string_eq}
use aioperator.Dict.Reload.{read_rows}

pub record PlanStep (V : Type 0) : Type 0 where
  pub action : String
  pub params : Dict String V
  pub reason : String
  pub status : String
  pub observation : List ℕ

pub record Plan (V : Type 0) : Type 0 where
  pub id : String
  pub goal_id : String
  pub title : String
  pub steps : List (PlanStep V)
  pub status : String
  pub provider : Option String
  pub replanned : ℕ
  pub created : ℕ
  pub updated : ℕ

pub record PlanStore (V : Type 0) : Type 0 where
  pub plans : Dict String (Plan V)
  pub file : Option (List (Plan V))

-- The place that a Python index means: `-1` is the last one.
unfoldable pub place : ℤ → ℕ → Option ℕ
place (pos n) len = if ltb n len then some n else none
place (negsuc n) len = if ltb n len then some (len - suc n) else none

unfoldable pub set_at : {A : Type 0} → ℕ → (A → A) → List A → List A
set_at n f [] = []
set_at zero f (x ∷ xs) = f x ∷ xs
set_at (suc n) f (x ∷ xs) = x ∷ set_at n f xs

-- `plan is None or index >= len(plan.steps)`
abbrev pub beyond : ℤ → ℕ → Bool
beyond (pos n) len = leb len n
beyond (negsuc n) len = false

pub data PlanResult (V : Type 0) : Type 0 where
  not_found : PlanResult V
  index_error : PlanResult V
  updates : PlanStore V → Plan V → PlanResult V

module _ {V : Type 0} where
  unfoldable pub save : PlanStore V → PlanStore V
  save s = record s { file = some (values s.plans) }

  -- `__init__` and `_load` on a file that can be read.
  unfoldable pub load : Option (List (Plan V)) → PlanStore V
  load none = record { plans = []; file = none }
  load (some rows) = record { plans = read_rows (λ p. p.id) rows []; file = some rows }

  unfoldable pub create :
      (now : ℕ) (id goal_id title : String)
      → List (PlanStep V)
      → Option String
      → PlanStore V
      → PlanStore V × Plan V
  unfolding save
  create now id goal_id title steps provider s =
      let plan : Plan V = record {
        id = id;
        goal_id = goal_id;
        title = title;
        steps = steps;
        status = "active";
        provider = provider;
        replanned = 0;
        created = now;
        updated = now;
      } in
      (save (record s { plans = put id plan s.plans }), plan)

  unfoldable pub get : String → PlanStore V → Option (Plan V)
  get id s = find id s.plans

  unfoldable pub for_goal : String → PlanStore V → List (Plan V)
  for_goal goal_id s = keep (λ p. str_eq p.goal_id goal_id) (values s.plans)

  -- The object in the table changes, and the table is written.
  unfoldable pub write : String → Plan V → PlanStore V → PlanStore V
  unfolding save
  write id plan s = save (record s { plans = put id plan s.plans })

  abbrev pub observe : String → List ℕ → PlanStep V → PlanStep V
  observe status observation step = record step {
    status = status;
    observation = take 500 observation;
  }

  -- A negative index passes the guard and counts from the end; below the first step it is an
  -- `IndexError`.
  unfoldable pub update_step :
      (now : ℕ) (plan_id : String) (index : ℤ) (status : String) (observation : List ℕ)
      → PlanStore V
      → PlanResult V
  unfolding place set_at write
  update_step now plan_id index status observation s = elim (find plan_id s.plans) [
    | none ↦ not_found
    | some plan ↦
        if beyond index (length plan.steps)
        then not_found
        else elim (place index (length plan.steps)) [
          | none ↦ index_error
          | some n ↦
              let plan' : Plan V = record plan {
                steps = set_at n (observe status observation) plan.steps;
                updated = now;
              } in
              updates (write plan_id plan' s) plan'
        ]
  ]

  unfoldable pub set_steps :
      ℕ → String → List (PlanStep V) → PlanStore V → PlanStore V × Option (Plan V)
  unfolding write
  set_steps now plan_id steps s = elim (find plan_id s.plans) [
    | none ↦ (s, none)
    | some plan ↦
        let plan' : Plan V = record plan { steps = steps; updated = now } in
        (write plan_id plan' s, some plan')
  ]

  unfoldable pub finish : ℕ → String → String → PlanStore V → PlanStore V
  unfolding write
  finish now plan_id status s = elim (find plan_id s.plans) [
    | none ↦ s
    | some plan ↦ write plan_id (record plan { status = status; updated = now }) s
  ]

  unfoldable pub append_steps : ℕ → String → List (PlanStep V) → PlanStore V → PlanStore V
  unfolding write
  append_steps now plan_id steps s = elim (find plan_id s.plans) [
    | none ↦ s
    | some plan ↦
        write plan_id
          (record plan {
            steps = plan.steps ++ steps;
            replanned = plan.replanned + 1;
            status = "active";
            updated = now;
          })
          s
  ]

  -- `[pid for pid, p in self._plans.items() if p.goal_id == goal_id]`
  abbrev pub ids_of : String → Dict String (Plan V) → List String
  ids_of goal_id d = keys (keep (λ e. str_eq e.1.goal_id goal_id) d)

  unfoldable pub remove_each : List String → Dict String (Plan V) → Dict String (Plan V)
  remove_each [] d = d
  remove_each (id ∷ ids) d = remove_each ids (remove id d)

  unfoldable pub purge_goal : String → PlanStore V → PlanStore V × ℕ
  unfolding remove_each save
  purge_goal goal_id s =
      let removed = ids_of goal_id s.plans in
      let s' : PlanStore V = record s { plans = remove_each removed s.plans } in
      (if length removed == 0 then s' else save s', length removed)

  unfoldable pub list_plans : Option String → PlanStore V → List (Plan V)
  list_plans status s = elim status [
    | none ↦ values s.plans
    | some wanted ↦
        if str_eq wanted ""
        then values s.plans
        else keep (λ p. str_eq p.status wanted) (values s.plans)
  ]
