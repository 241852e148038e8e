-- ===== src/Intelligence/Goals/Titles.antt =====
-- Sequences of calls of the goal registry, and the titles of its active goals.
use aioperator.Prelude.{
  ℕ, ◌≡◌, ◌≢◌, refl, ap, ◌∙◌, sym, true, false, Bool-cases, Option-cases, inl, inr, Option, none,
  some, List, [], ◌∷◌, String, str_eq, eq_iff, first, ℤ, ◌&&◌, keep, length, ◌==◌,
}
use mathlib.Core.Path.{subst}
use mathlib.Core.Option.{some-injective}
use mathlib.Core.Bool.{true≢false}
use aioperator.Dict.{Dict, get as find, put, values, string_eq}
use aioperator.Dict.Laws.{get-put-cases, get-first-none}
use aioperator.Intelligence.Goals.{
  Goal, GoalStore, is_active, is_stale, save, active_titled, create, complete, fail, cancel,
  spawn_subgoal, update, change_all, change, close_one, close_each, Change, close_stale, set_status,
  set_progress, set_blocker,
}

pub data Op : Type 0 where
  creates :
      (now : ℕ) (id title kind : String) (priority : ℤ) (provenance : String)
      (parent : Option String) (dependencies : List String) (agent : Option String)
      → Op
  completes : ℕ → String → Op
  fails : ℕ → String → Option String → Op
  cancels : ℕ → String → Op
  spawns : (now : ℕ) (id parent title : String) (priority : ℤ) → Op
  closes : (now horizon : ℕ) → Op

unfoldable pub apply : Op → GoalStore → GoalStore
apply (creates now id title kind priority provenance parent dependencies agent) s =
    (create now id title kind priority provenance parent dependencies agent s).0
apply (completes now id) s = complete now id s
apply (fails now id blocker) s = fail now id blocker s
apply (cancels now id) s = cancel now id s
apply (spawns now id parent title priority) s = (spawn_subgoal now id parent title priority s).0
apply (closes now horizon) s = (close_stale now horizon s).0

unfoldable pub run : List Op → GoalStore → GoalStore
unfolding apply
run [] s = s
run (op ∷ ops) s = run ops (apply op s)

-- Two active goals with one title are one goal.
abbrev pub IsUnique : Dict String Goal → Type 0
IsUnique goals =
    (i j : String) (g h : Goal)
    → find i goals ≡ some g
    → find j goals ≡ some h
    → is_active g ≡ true
    → is_active h ≡ true
    → g.title ≡ h.title
    → i ≡ j

put_inactive-IsUnique :
    (k : String) (g : Goal) (goals : Dict String Goal)
    → is_active g ≡ false
    → IsUnique goals
    → IsUnique (put k g goals)
put_inactive-IsUnique k g goals a u i j x y p q b c t = elim (get-put-cases k i g x goals p) [
  | inl (_, e) ↦ absurd (true≢false (sym b ∙ ap is_active (sym e) ∙ a))
  | inr p' ↦ elim (get-put-cases k j g y goals q) [
    | inl (_, e) ↦ absurd (true≢false (sym c ∙ ap is_active (sym e) ∙ a))
    | inr q' ↦ u i j x y p' q' b c t
  ]
]

-- An active goal with the title of another one is passed over by no search for it.
titled :
    (k : String) (g h : Goal) (goals : Dict String Goal)
    → first (λ h. str_eq h.title g.title && is_active h) (values goals) ≡ none
    → find k goals ≡ some h
    → is_active h ≡ true
    → h.title ≢ g.title
titled k g h goals f q a t = true≢false (
    sym (rw (a, (eq_iff h.title g.title).1 t) refl)
    ∙ get-first-none (λ h. str_eq h.title g.title && is_active h) k h goals f q)

put_new-IsUnique :
    (k : String) (g : Goal) (goals : Dict String Goal)
    → first (λ h. str_eq h.title g.title && is_active h) (values goals) ≡ none
    → IsUnique goals
    → IsUnique (put k g goals)
put_new-IsUnique k g goals f u i j x y p q b c t = elim (get-put-cases k i g x goals p) [
  | inl (l, d) ↦ elim (get-put-cases k j g y goals q) [
    | inl (m, _) ↦ sym l ∙ m
    | inr q' ↦ absurd (titled j g y goals f q' c (sym t ∙ ap (λ h. h.title) (sym d)))
  ]
  | inr p' ↦ elim (get-put-cases k j g y goals q) [
    | inl (_, d) ↦ absurd (titled i g x goals f p' b (t ∙ ap (λ h. h.title) (sym d)))
    | inr q' ↦ u i j x y p' q' b c t
  ]
]

close_one-active :
    (now horizon : ℕ) (g : Goal)
    → is_active (close_one now horizon g) ≡ true
    → close_one now horizon g ≡ g
unfolding close_one
close_one-active now horizon g a = elim (Bool-cases (is_stale now horizon g)) [
  | inl q ↦ absurd (true≢false (sym (rw q at a)))
  | inr q ↦ rw q refl
]

find-close_each :
    (now horizon : ℕ) (i : String) (h : Goal) (goals : Dict String Goal)
    → find i (close_each now horizon goals) ≡ some h
    → is_active h ≡ true
    → find i goals ≡ some h
unfolding find close_each
find-close_each now horizon i h [] p a = p
find-close_each now horizon i h ((j, w) ∷ goals) p a = elim (Bool-cases (str_eq j i)) [
  | inl q ↦
      let e = some-injective _ _ (rw q at p) in
      rw q (
        ap some
          (sym (close_one-active now horizon w (subst (λ g. is_active g ≡ true) (sym e) a)) ∙ e))
  | inr q ↦ rw q (find-close_each now horizon i h goals (rw q at p) a)
]

close_each-IsUnique :
    (now horizon : ℕ) (goals : Dict String Goal)
    → IsUnique goals
    → IsUnique (close_each now horizon goals)
close_each-IsUnique now horizon goals u i j x y p q b c t =
    u i j x y (find-close_each now horizon i x goals p b)
      (find-close_each now horizon j y goals q c) b c t

update-IsUnique :
    (now : ℕ) (id : String) (changes : List Change) (s : GoalStore)
    → ((g : Goal) → is_active (change_all changes g) ≡ false)
    → IsUnique s.goals
    → IsUnique (update now id changes s).0.goals
unfolding update save
update-IsUnique now id changes s a u = elim (Option-cases (find id s.goals)) [
  | inl q ↦ rw (q, update) u
  | inr (g, q) ↦ rw (q, update) (put_inactive-IsUnique id _ s.goals (a g) u)
]

create-IsUnique :
    (now : ℕ) (id title kind : String) (priority : ℤ) (provenance : String) (parent : Option String)
    (dependencies : List String) (agent : Option String) (s : GoalStore)
    → IsUnique s.goals
    → IsUnique (create now id title kind priority provenance parent dependencies agent s).0.goals
unfolding create save active_titled
create-IsUnique now id title kind priority provenance parent dependencies agent s u =
    elim (Option-cases (active_titled title s)) [
      | inl q ↦ rw (q, create) (put_new-IsUnique id _ s.goals q u)
      | inr (g, q) ↦ rw (q, create) u
    ]

close_stale-IsUnique :
    (now horizon : ℕ) (s : GoalStore)
    → IsUnique s.goals
    → IsUnique (close_stale now horizon s).0.goals
unfolding close_stale save
close_stale-IsUnique now horizon s u =
    elim (Bool-cases (length (keep (is_stale now horizon) (values s.goals)) == 0)) [
      | inl q ↦ rw q (close_each-IsUnique now horizon s.goals u)
      | inr q ↦ rw q (close_each-IsUnique now horizon s.goals u)
    ]

apply-IsUnique : (op : Op) (s : GoalStore) → IsUnique s.goals → IsUnique (apply op s).goals
unfolding apply complete fail cancel spawn_subgoal change_all change
apply-IsUnique (creates now id title kind priority provenance parent dependencies agent) s u =
    create-IsUnique now id title kind priority provenance parent dependencies agent s u
apply-IsUnique (completes now id) s u =
    update-IsUnique now id (set_status "completed" ∷ set_progress 1000 ∷ []) s (λ g. refl) u
apply-IsUnique (fails now id blocker) s u =
    update-IsUnique now id (set_status "failed" ∷ set_blocker blocker ∷ []) s (λ g. refl) u
apply-IsUnique (cancels now id) s u =
    update-IsUnique now id (set_status "cancelled" ∷ []) s (λ g. refl) u
apply-IsUnique (spawns now id parent title priority) s u =
    create-IsUnique now id title _ _ _ _ _ _ s u
apply-IsUnique (closes now horizon) s u = close_stale-IsUnique now horizon s u

-- Whatever calls of `create`, `complete`, `fail`, `cancel`, `spawn_subgoal` and `close_stale` follow,
-- a registry in which no two active goals have one title stays so.
pub run-IsUnique : (ops : List Op) (s : GoalStore) → IsUnique s.goals → IsUnique (run ops s).goals
unfolding run
run-IsUnique [] s u = u
run-IsUnique (op ∷ ops) s u = run-IsUnique ops (apply op s) (apply-IsUnique op s u)
