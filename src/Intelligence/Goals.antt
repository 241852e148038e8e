-- ===== src/Intelligence/Goals.antt =====
-- buster/intelligence/goals.py: the registry of goals and its file. Statuses are strings, progress is
-- in thousandths, `now` is the time of the call and `id` the identifier that `uuid4` gives. The file
-- is the list of rows that `_save` wrote last, `none` when there is no file.
pub mod Titles
pub mod Saved
mod Tests
use aioperator.Prelude.{
  ℕ, ◌+◌, Bool, true, false, ◌&&◌, Option, none, some, List, [], ◌∷◌, map, String, str_eq,
  if◌then◌else◌, keep, first, length, ltb, ◌==◌, ℤ, ltb_ℤ, sort_by,
}
use aioperator.Dict.{Eq, Dict, get as find, put, values, string_eq}
use aioperator.Dict.Reload.{read_rows}

pub record Goal : Type 0 where
  pub id : String
  pub title : String
  pub kind : String
  pub status : String
  pub priority : ℤ
  pub progress : ℕ
  pub dependencies : List String
  pub blocker : Option String
  pub provenance : String
  pub agent : Option String
  pub parent : Option String
  pub created : ℕ
  pub updated : ℕ

pub record GoalStore : Type 0 where
  pub goals : Dict String Goal
  pub file : Option (List Goal)

-- A keyword argument of `update`; a name that a goal does not have is `unknown`.
pub data Change : Type 0 where
  set_id set_title set_kind set_status set_provenance unknown : String → Change
  set_priority : ℤ → Change
  set_progress set_created set_updated : ℕ → Change
  set_dependencies : List String → Change
  set_blocker set_agent set_parent : Option String → Change

abbrev pub is_active : Goal → Bool
is_active g = str_eq g.status "active"

unfoldable pub save : GoalStore → GoalStore
save s = record s { file = some (values s.goals) }

-- `__init__` and `_load` on a file that can be read.
unfoldable pub load : Option (List Goal) → GoalStore
load none = record { goals = []; file = none }
load (some rows) = record { goals = read_rows (λ g. g.id) rows []; file = some rows }

unfoldable pub active_titled : String → GoalStore → Option Goal
active_titled title s = first (λ g. str_eq g.title title && is_active g) (values s.goals)

-- An active goal with the title is returned instead of a new one.
unfoldable pub create :
    (now : ℕ) (id title kind : String) (priority : ℤ) (provenance : String) (parent : Option String)
    (dependencies : List String) (agent : Option String)
    → GoalStore
    → GoalStore × Goal
unfolding save
create now id title kind priority provenance parent dependencies agent s =
    let goal : Goal = record {
      id = id;
      title = title;
      kind = kind;
      status = "active";
      priority = priority;
      progress = 0;
      dependencies = dependencies;
      blocker = none;
      provenance = provenance;
      agent = agent;
      parent = parent;
      created = now;
      updated = now;
    } in
    elim (active_titled title s) [
      | some g ↦ (s, g)
      | none ↦ (save (record s { goals = put id goal s.goals }), goal)
    ]

unfoldable pub get : String → GoalStore → Option Goal
get id s = find id s.goals

unfoldable pub change : Change → Goal → Goal
change (set_id v) g = record g { id = v }
change (set_title v) g = record g { title = v }
change (set_kind v) g = record g { kind = v }
change (set_status v) g = record g { status = v }
change (set_provenance v) g = record g { provenance = v }
change (unknown v) g = g
change (set_priority v) g = record g { priority = v }
change (set_progress v) g = record g { progress = v }
change (set_created v) g = record g { created = v }
change (set_updated v) g = record g { updated = v }
change (set_dependencies v) g = record g { dependencies = v }
change (set_blocker v) g = record g { blocker = v }
change (set_agent v) g = record g { agent = v }
change (set_parent v) g = record g { parent = v }

unfoldable pub change_all : List Change → Goal → Goal
unfolding change
change_all [] g = g
change_all (c ∷ changes) g = change_all changes (change c g)

unfoldable pub update : ℕ → String → List Change → GoalStore → GoalStore × Option Goal
unfolding change_all save
update now id changes s = elim (find id s.goals) [
  | none ↦ (s, none)
  | some g ↦
      let g' : Goal = record (change_all changes g) { updated = now } in
      (save (record s { goals = put id g' s.goals }), some g')
]

unfoldable pub complete : ℕ → String → GoalStore → GoalStore
unfolding update
complete now id s = (update now id (set_status "completed" ∷ set_progress 1000 ∷ []) s).0

-- `_notify` does nothing.
unfoldable pub fail : ℕ → String → Option String → GoalStore → GoalStore
unfolding update
fail now id blocker s = (update now id (set_status "failed" ∷ set_blocker blocker ∷ []) s).0

unfoldable pub cancel : ℕ → String → GoalStore → GoalStore
unfolding update
cancel now id s = (update now id (set_status "cancelled" ∷ []) s).0

unfoldable pub spawn_subgoal : ℕ → String → String → String → ℤ → GoalStore → GoalStore × Goal
unfolding create
spawn_subgoal now id parent_id title priority s =
    create now id title "subgoal" priority "derived" (some parent_id) [] none s

-- Highest priority first; an empty status is no filter.
unfoldable pub list_goals : Option String → GoalStore → List Goal
list_goals status s =
    sort_by (λ a b. ltb_ℤ b.priority a.priority)
      (elim status [
        | none ↦ values s.goals
        | some wanted ↦
            if str_eq wanted ""
            then values s.goals
            else keep (λ g. str_eq g.status wanted) (values s.goals)
      ])

unfoldable pub active : GoalStore → List Goal
unfolding list_goals
active s = list_goals (some "active") s

abbrev pub is_stale : ℕ → ℕ → Goal → Bool
is_stale now horizon g = is_active g && ltb (g.updated + horizon) now

unfoldable pub close_one : ℕ → ℕ → Goal → Goal
close_one now horizon g =
    if is_stale now horizon g
    then record g { status = "failed"; blocker = some "stale"; updated = now }
    else g

-- The loop of `close_stale`: each goal is an object of its own, so their order plays no part.
unfoldable pub close_each : ℕ → ℕ → Dict String Goal → Dict String Goal
unfolding close_one
close_each now horizon [] = []
close_each now horizon ((id, g) ∷ goals) =
    (id, close_one now horizon g) ∷ close_each now horizon goals

unfoldable pub close_stale : ℕ → ℕ → GoalStore → GoalStore × ℕ
unfolding close_each save
close_stale now horizon s =
    let closed = length (keep (is_stale now horizon) (values s.goals)) in
    let s' : GoalStore = record s { goals = close_each now horizon s.goals } in
    (if closed == 0 then s' else save s', closed)
