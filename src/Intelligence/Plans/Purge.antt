-- ===== src/Intelligence/Plans/Purge.antt =====
-- What `purge_goal` leaves in the registry of plans.
use aioperator.Prelude.{
  ◌≡◌, refl, Bool, Bool-cases, inl, inr, true, false, Option, none, some, List, [], ◌∷◌, String,
  str_eq, if◌then◌else◌, keep, length, ◌==◌, arith, any,
}
use aioperator.Dict.{Dict, get as find, remove, keys, string_eq}
use aioperator.Dict.Laws.{get-remove}
use aioperator.Dict.Distinct.{IsDistinct, get-keep}
use aioperator.Intelligence.Plans.{Plan, PlanStore, remove_each, purge_goal, ids_of, save}

module _ {V : Type 0} where
  find-remove_each :
      (id : String) (ids : List String) (d : Dict String (Plan V))
      → find id (remove_each ids d) ≡ (if any ids (λ k. str_eq k id) then none else find id d)
  unfolding remove_each
  find-remove_each id [] d = refl
  find-remove_each id (k ∷ ids) d =
      ground (arith, find-remove_each id ids (remove k d), get-remove k id d)

  any-keys :
      (id : String) (d : Dict String (Plan V))
      → any (keys d) (λ k. str_eq k id) ≡ elim (find id d) [ none ↦ false | some _ ↦ true ]
  unfolding find
  any-keys id [] = refl
  any-keys id ((k, p) ∷ d) = ground (arith, any-keys id d)

  plans-purge_goal :
      (goal_id : String) (s : PlanStore V)
      → (purge_goal goal_id s).0.plans ≡ remove_each (ids_of goal_id s.plans) s.plans
  unfolding purge_goal save
  plans-purge_goal goal_id s = elim (Bool-cases (length (ids_of goal_id s.plans) == 0)) [
    | inl q ↦ rw q refl
    | inr q ↦ rw q refl
  ]

  remaining_lem :
      (goal_id : String) (o : Option (Plan V))
      → (if elim (elim o as (λ x. Option (Plan V)) [
        | none ↦ none
        | some v ↦ if str_eq v.goal_id goal_id then some v else none
      ])
            as (λ x. Bool) [ none ↦ false | some x ↦ true ]
          then none
          else o)
        ≡ elim o [ none ↦ none | some p ↦ if str_eq p.goal_id goal_id then none else some p ]
  remaining_lem goal_id none = refl
  remaining_lem goal_id (some p) = elim (Bool-cases (str_eq p.goal_id goal_id)) [
    | inl q ↦ rw q refl
    | inr q ↦ rw q refl
  ]

  purged :
      (goal_id id : String) (d : Dict String (Plan V))
      → IsDistinct d
      → find id (remove_each (ids_of goal_id d) d) ≡ elim (find id d) [
        | none ↦ none
        | some p ↦ if str_eq p.goal_id goal_id then none else some p
      ]
  purged goal_id id d h = rw (find-remove_each id (ids_of goal_id d) d) (
      rw (any-keys id (keep (λ e. str_eq e.1.goal_id goal_id) d)) (
        rw (get-keep (λ e. str_eq e.1.goal_id goal_id) id d h) (remaining_lem goal_id (find id d))))

  -- After `purge_goal`, in a registry with each plan identifier once, no plan of the goal is found and
  -- every other plan is found as before.
  pub find-purge_goal :
      (goal_id id : String) (s : PlanStore V)
      → IsDistinct s.plans
      → find id (purge_goal goal_id s).0.plans ≡ elim (find id s.plans) [
        | none ↦ none
        | some p ↦ if str_eq p.goal_id goal_id then none else some p
      ]
  find-purge_goal goal_id id s h = rw (plans-purge_goal goal_id s) (purged goal_id id s.plans h)
