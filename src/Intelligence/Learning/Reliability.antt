-- ===== src/Intelligence/Learning/Reliability.antt =====
-- buster/intelligence/learning.py: the counts that are kept for an action.
use mathlib.Core.Path.{subst}
use aioperator.Prelude.{
  ℕ, ◌+◌, ◌≡◌, ap, ◌∙◌, true, none, List, [], ◌∷◌, String, if◌then◌else◌, length, arith,
}
use aioperator.Dict.{get, string_eq}
use aioperator.Dict.Laws.{get-put_self}
use aioperator.Capabilities.Registry.{CapabilityResult}
use aioperator.Memory.Knowledge.{KnowledgeEntry, KnowledgeMemory, accepts, learn, save}
use aioperator.Intelligence.Learning.{
  Outcomes, outcome_key, previous, counted, record_capability_outcome,
}

module _ {V : Type 0} (read : V → Outcomes) where
  -- The table has the counts of the action, and an entry that a new one replaces.
  record Tracks (action : String) (o : Outcomes) (k : KnowledgeMemory V) : Type 0 where
    pub counts : previous read (get (outcome_key action) k.table) ≡ o
    pub accepted : accepts 900 (get (outcome_key action) k.table) ≡ true

  learn-Tracks :
      (now : ℕ) (action : String) (v : V) (o : Outcomes) (k : KnowledgeMemory V)
      → accepts 900 (get (outcome_key action) k.table) ≡ true
      → read v ≡ o
      → Tracks action o (learn now (outcome_key action) v "learning" 900 k)
  unfolding learn save
  learn-Tracks now action v o k a e =
      let new : KnowledgeEntry V = record {
        key = outcome_key action;
        value = v;
        source = "learning";
        confidence = 900;
        created = now;
        updated = now;
      } in
      let g = get-put_self (outcome_key action) new k.table in
      rw a (record { counts = ap (previous read) g ∙ e; accepted = ap (accepts 900) g })

abbrev pub successes : {D : Type 0} → List (CapabilityResult D) → ℕ
successes [] = 0
successes (r ∷ rs) = (if r.success then 1 else 0) + successes rs

abbrev pub failures : {D : Type 0} → List (CapabilityResult D) → ℕ
failures [] = 0
failures (r ∷ rs) = (if r.success then 0 else 1) + failures rs

abbrev pub plus : {D : Type 0} → Outcomes → List (CapabilityResult D) → Outcomes
plus o rs = record {
  uses = o.uses + length rs;
  successes = o.successes + successes rs;
  failures = o.failures + failures rs;
}

outcomes_path :
    (o p : Outcomes) → o.uses ≡ p.uses → o.successes ≡ p.successes → o.failures ≡ p.failures → o ≡ p
outcomes_path o p u v w = λ i. record { uses = u i; successes = v i; failures = w i }

module _ {V D : Type 0} (read : V → Outcomes) (write : (reliability : ℕ) → Outcomes → V)
    (ratio : ℕ → ℕ → ℕ) (reads : (r : ℕ) (o : Outcomes) → read (write r o) ≡ o) where
  -- The results of an action, one behind the other.
  unfoldable pub record_all :
      (now : ℕ) (action : String)
      → List (CapabilityResult D)
      → KnowledgeMemory V
      → KnowledgeMemory V
  record_all now action [] k = k
  record_all now action (r ∷ rs) k =
      record_all now action rs (record_capability_outcome read write ratio now action r k)

  record_capability_outcome-Tracks :
      (now : ℕ) (action : String) (r : CapabilityResult D) (o : Outcomes) (k : KnowledgeMemory V)
      → Tracks read action o k
      → Tracks read action
          (counted r.success o)
          (record_capability_outcome read write ratio now action r k)
  unfolding record_capability_outcome
  record_capability_outcome-Tracks now action r o k t =
      learn-Tracks read now action _ _ k t.accepted (reads _ _ ∙ ap (counted r.success) t.counts)

  record_all-Tracks :
      (now : ℕ) (action : String) (rs : List (CapabilityResult D)) (o : Outcomes)
      (k : KnowledgeMemory V)
      → Tracks read action o k
      → Tracks read action (plus o rs) (record_all now action rs k)
  unfolding record_all
  record_all-Tracks now action [] o k t =
      subst (λ p. Tracks read action p k)
        (outcomes_path o (plus {D = D} o []) (omega arith) (omega arith) (omega arith)) t
  record_all-Tracks now action (r ∷ rs) o k t =
      subst
        (λ p.
          Tracks read action p
            (record_all now action rs (record_capability_outcome read write ratio now action r k)))
        (outcomes_path (plus (counted r.success o) rs) (plus o (r ∷ rs)) (omega arith) (omega arith)
          (omega arith))
        (record_all-Tracks now action rs (counted r.success o)
          (record_capability_outcome read write ratio now action r k)
          (record_capability_outcome-Tracks now action r o k t))

  -- Recorded one behind the other, the results of an action that had no entry are counted exactly: the
  -- uses, the successes and the failures that are kept are those of the list. The condition is that the
  -- numbers of a written value are read back.
  pub record_all-counts :
      (now : ℕ) (action : String) (rs : List (CapabilityResult D)) (k : KnowledgeMemory V)
      → get (outcome_key action) k.table ≡ none
      → previous read (get (outcome_key action) (record_all now action rs k).table)
        ≡ record { uses = length rs; successes = successes rs; failures = failures rs }
  record_all-counts now action rs k h =
      let t : Tracks read action (record { uses = 0; successes = 0; failures = 0 }) k = record {
        counts = ap (previous read) h;
        accepted = ap (accepts 900) h;
      } in
      (record_all-Tracks now action rs _ k t).counts
      ∙ outcomes_path _ _ (omega arith) (omega arith) (omega arith)
