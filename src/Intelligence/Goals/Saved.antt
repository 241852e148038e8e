-- ===== src/Intelligence/Goals/Saved.antt =====
-- The file of the goal registry over sequences of calls, and the registry that `_load` reads from it.
use mathlib.Core.Option.{none-ne-some}
use aioperator.Prelude.{
  ℕ, ◌≡◌, refl, ap, ◌∙◌, sym, Bool-cases, Option-cases, ◌⊎◌, inl, inr, Option, none, some, List, [],
  ◌∷◌, String, str_eq, ℤ, arith, keep, length, ◌==◌, ==_iff,
}
use aioperator.Dict.{Dict, get as find, values, string_eq}
use aioperator.Dict.Distinct.{IsDistinct, IsDistinct-put}
use aioperator.Dict.Reload.{IsKeyed, IsKeyed-put, IsKeyed-get, read_rows, read_rows-values}
use aioperator.Intelligence.Goals.{
  Goal, GoalStore, is_stale, save, load, active_titled, create, complete, fail, cancel,
  spawn_subgoal, update, change_all, change, close_one, close_each, close_stale, Change, set_status,
  set_progress, set_blocker,
}
use aioperator.Intelligence.Goals.Titles.{
  Op, creates, completes, fails, cancels, spawns, closes, apply, run,
}

record IsSaved (s : GoalStore) : Type 0 where
  pub distinct : IsDistinct s.goals
  pub keyed : IsKeyed (λ g. g.id) s.goals
  pub written : (s.file ≡ some (values s.goals)) ⊎ ((s.file ≡ none) × (s.goals ≡ []))

save-IsSaved :
    (s : GoalStore) (goals : Dict String Goal)
    → IsDistinct goals
    → IsKeyed (λ g. g.id) goals
    → IsSaved (save (record s { goals = goals }))
unfolding save
save-IsSaved s goals d k = record { distinct = d; keyed = k; written = inl refl }

close_one-id : (now horizon : ℕ) (g : Goal) → (close_one now horizon g).id ≡ g.id
unfolding close_one
close_one-id now horizon g = ground arith

close_each-IsKeyed :
    (now horizon : ℕ) (goals : Dict String Goal)
    → IsKeyed (λ g. g.id) goals
    → IsKeyed (λ g. g.id) (close_each now horizon goals)
unfolding close_each
close_each-IsKeyed now horizon [] k = tt
close_each-IsKeyed now horizon ((i, g) ∷ goals) k =
    (close_one-id now horizon g ∙ k.0, close_each-IsKeyed now horizon goals k.1)

find-close_each-none :
    (now horizon : ℕ) (i : String) (goals : Dict String Goal)
    → find i goals ≡ none
    → find i (close_each now horizon goals) ≡ none
unfolding find close_each
find-close_each-none now horizon i [] h = h
find-close_each-none now horizon i ((j, g) ∷ goals) h = elim (Bool-cases (str_eq j i)) [
  | inl q ↦ absurd (none-ne-some _ (sym (rw q at h)))
  | inr q ↦ rw q (find-close_each-none now horizon i goals (rw q at h))
]

close_each-IsDistinct :
    (now horizon : ℕ) (goals : Dict String Goal)
    → IsDistinct goals
    → IsDistinct (close_each now horizon goals)
unfolding close_each
close_each-IsDistinct now horizon [] d = tt
close_each-IsDistinct now horizon ((i, g) ∷ goals) d =
    (find-close_each-none now horizon i goals d.0, close_each-IsDistinct now horizon goals d.1)

-- Without a stale goal the loop changes nothing.
close_each-none :
    (now horizon : ℕ) (goals : Dict String Goal)
    → length (keep (is_stale now horizon) (values goals)) ≡ 0
    → close_each now horizon goals ≡ goals
unfolding close_each close_one
close_each-none now horizon [] h = refl
close_each-none now horizon ((i, g) ∷ goals) h = elim (Bool-cases (is_stale now horizon g)) [
  | inl q ↦ absurd (ground (arith, rw q at h))
  | inr q ↦ rw q (ap (λ rest. (i, g) ∷ rest) (close_each-none now horizon goals (rw q at h)))
]

close_stale-IsSaved :
    (now horizon : ℕ) (s : GoalStore) → IsSaved s → IsSaved (close_stale now horizon s).0
unfolding close_stale
close_stale-IsSaved now horizon s h =
    elim (Bool-cases (length (keep (is_stale now horizon) (values s.goals)) == 0)) [
      | inl q ↦ rw (q, close_stale, close_each-none now horizon s.goals ((==_iff _ _).0 q)) h
      | inr q ↦
          rw (q, close_stale)
            (save-IsSaved s _ (close_each-IsDistinct now horizon s.goals h.distinct)
              (close_each-IsKeyed now horizon s.goals h.keyed))
    ]

update-IsSaved :
    (now : ℕ) (id : String) (changes : List Change) (s : GoalStore)
    → ((g : Goal) → (change_all changes g).id ≡ g.id)
    → IsSaved s
    → IsSaved (update now id changes s).0
unfolding update
update-IsSaved now id changes s a h = elim (Option-cases (find id s.goals)) [
  | inl q ↦ rw (q, update) h
  | inr (g, q) ↦
      rw (q, update)
        (save-IsSaved s _ (IsDistinct-put id _ s.goals h.distinct) (
          IsKeyed-put (λ g. g.id) id _ s.goals
            (a g ∙ IsKeyed-get (λ g. g.id) id g s.goals h.keyed q) h.keyed))
]

create-IsSaved :
    (now : ℕ) (id title kind : String) (priority : ℤ) (provenance : String) (parent : Option String)
    (dependencies : List String) (agent : Option String) (s : GoalStore)
    → IsSaved s
    → IsSaved (create now id title kind priority provenance parent dependencies agent s).0
unfolding create
create-IsSaved now id title kind priority provenance parent dependencies agent s h =
    elim (Option-cases (active_titled title s)) [
      | inl q ↦
          rw (q, create)
            (save-IsSaved s _ (IsDistinct-put id _ s.goals h.distinct)
              (IsKeyed-put (λ g. g.id) id _ s.goals refl h.keyed))
      | inr (g, q) ↦ rw (q, create) h
    ]

apply-IsSaved : (op : Op) (s : GoalStore) → IsSaved s → IsSaved (apply op s)
unfolding apply complete fail cancel spawn_subgoal change_all change
apply-IsSaved (creates now id title kind priority provenance parent dependencies agent) s h =
    create-IsSaved now id title kind priority provenance parent dependencies agent s h
apply-IsSaved (completes now id) s h =
    update-IsSaved now id (set_status "completed" ∷ set_progress 1000 ∷ []) s (λ g. refl) h
apply-IsSaved (fails now id blocker) s h =
    update-IsSaved now id (set_status "failed" ∷ set_blocker blocker ∷ []) s (λ g. refl) h
apply-IsSaved (cancels now id) s h =
    update-IsSaved now id (set_status "cancelled" ∷ []) s (λ g. refl) h
apply-IsSaved (spawns now id parent title priority) s h =
    create-IsSaved now id title _ _ _ _ _ _ s h
apply-IsSaved (closes now horizon) s h = close_stale-IsSaved now horizon s h

runs-IsSaved : (ops : List Op) (s : GoalStore) → IsSaved s → IsSaved (run ops s)
unfolding run
runs-IsSaved [] s h = h
runs-IsSaved (op ∷ ops) s h = runs-IsSaved ops (apply op s) (apply-IsSaved op s h)

load-IsSaved : (s : GoalStore) → IsSaved s → (load s.file).goals ≡ s.goals
unfolding load read_rows
load-IsSaved s h = elim h.written [
  | inl q ↦ rw (q, load) (read_rows-values (λ g. g.id) s.goals h.distinct h.keyed)
  | inr (q, e) ↦ rw (q, load, e) refl
]

-- After any calls of `create`, `complete`, `fail`, `cancel`, `spawn_subgoal` and `close_stale` on a
-- new registry, a restart reads exactly the goals of the registry back from the file, in their order.
pub load-run :
    (ops : List Op) → (load (run ops (load none)).file).goals ≡ (run ops (load none)).goals
unfolding load
load-run ops = load-IsSaved _ (
    runs-IsSaved ops (load none) (record { distinct = tt; keyed = tt; written = inr (refl, refl) }))
