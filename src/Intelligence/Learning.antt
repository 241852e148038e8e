-- ===== src/Intelligence/Learning.antt =====
-- buster/intelligence/learning.py: what an outcome leaves in the memories. The kernel has a memory, and
-- its knowledge is given where a method uses it; `has` says whether a text occurs in the lowered error,
-- `prefix60` is `key_base[:60]`, and `ratio` the rounded quotient. Values of the knowledge are of type
-- `V`; `read` takes the three numbers out of a value, and `write` makes a value of them.
pub mod Reliability
mod Tests
use aioperator.Prelude.{
  ℕ, ◌+◌, Bool, true, false, ◌||◌, Option, none, some, is_some, List, [], ◌∷◌, String, str_eq,
  fstring, if◌then◌else◌, get_or, codes,
}
use aioperator.Prelude.Strings.{first_chars}
use aioperator.Dict.{Dict, get, put, string_eq}
use aioperator.Capabilities.Registry.{CapabilityResult}
use aioperator.Memory.Knowledge.{KnowledgeEntry, KnowledgeMemory, learn}
use aioperator.Memory.Experience.{ExperienceMemory, store}

pub record LearningCycle : Type 0 where
  pub intention : String
  pub result_ok : Bool
  pub evaluation : String
  pub lesson : Option String
  pub ts : ℕ

pub record Outcomes : Type 0 where
  pub uses : ℕ
  pub successes : ℕ
  pub failures : ℕ

module _ {D : Type 0} (has : String → String → Bool) where
  -- `evaluate`
  unfoldable pub evaluate : CapabilityResult D → String
  evaluate r =
      if r.success
      then "success"
      else if has "permission denied" (get_or r.error "")
          || has "denied by default" (get_or r.error "")
      then "blocked"
      else "failure"

  -- `evaluation or self.evaluate(result) if result is not None else ""`
  abbrev pub evaluation_of : String → Option (CapabilityResult D) → String
  unfolding evaluate
  evaluation_of given none = ""
  evaluation_of given (some r) = if str_eq given "" then evaluate r else given

  abbrev pub result_ok : Option (CapabilityResult D) → Bool
  result_ok none = false
  result_ok (some r) = r.success

-- `lesson` as a condition.
abbrev pub given : Option String → Option String
given none = none
given (some l) = if str_eq l "" then none else some l

abbrev pub outcome_key : String → String
outcome_key action = fstring ("capability_outcome:" ∷ action ∷ [])

abbrev pub counted : Bool → Outcomes → Outcomes
counted success o = record {
  uses = o.uses + 1;
  successes = o.successes + (if success then 1 else 0);
  failures = o.failures + (if success then 0 else 1);
}

module _ {V : Type 0} where
  -- `_store_lesson`; `text` makes a value of a text.
  abbrev pub store_lesson :
      (text : String → V) (now : ℕ) (key_base : String)
      → Option String
      → String
      → KnowledgeMemory V
      → KnowledgeMemory V
  unfolding learn
  store_lesson text now key_base none evaluation k = k
  store_lesson text now key_base (some lesson) evaluation k =
      learn now (fstring ("lesson:" ∷ first_chars 60 key_base ∷ [])) (text lesson) "learning"
        (if str_eq evaluation "success" then 800 else 600) k

  -- `record_cycle`
  unfoldable pub record_cycle :
      {D : Type 0} (has : String → String → Bool) (text : String → V) (now : ℕ)
      (intention evaluation : String)
      → Option (CapabilityResult D)
      → Option String
      → ExperienceMemory × KnowledgeMemory V
      → LearningCycle × (ExperienceMemory × KnowledgeMemory V)
  unfolding evaluation_of store_lesson store
  record_cycle has text now intention evaluation result lesson (x, k) =
      let cycle : LearningCycle = record {
        intention = intention;
        result_ok = result_ok has result;
        evaluation = evaluation_of has evaluation result;
        lesson = lesson;
        ts = now;
      } in
      (
        cycle,
        (
          store
              (record {
                ts = now;
                status = some (if cycle.result_ok then "done" else "failed");
                target = some (codes intention);
                error = none;
                agent = none;
              })
              x,
          store_lesson text now intention (given lesson) cycle.evaluation k,
        ),
      )

  abbrev pub previous : (V → Outcomes) → Option (KnowledgeEntry V) → Outcomes
  previous read none = record { uses = 0; successes = 0; failures = 0 }
  previous read (some e) = read e.value

  -- `record_capability_outcome`
  unfoldable pub record_capability_outcome :
      {D : Type 0} (read : V → Outcomes) (write : (reliability : ℕ) → Outcomes → V)
      (ratio : ℕ → ℕ → ℕ) (now : ℕ) (action : String)
      → CapabilityResult D
      → KnowledgeMemory V
      → KnowledgeMemory V
  unfolding learn
  record_capability_outcome read write ratio now action r k =
      let o = counted r.success (previous read (get (outcome_key action) k.table)) in
      learn now (outcome_key action) (write (ratio o.successes o.uses) o) "learning" 900 k
