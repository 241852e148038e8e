-- ===== src/Memory/Knowledge/Confidence.antt =====
-- Which of the values that were learned for a key is recalled.
use aioperator.Prelude.{
  ℕ, ◌≡◌, refl, ap, ◌∙◌, Bool-cases, inl, inr, true, false, none, some, List, [], ◌∷◌, String,
  if◌then◌else◌, leb,
}
use aioperator.Dict.{get, string_eq}
use aioperator.Dict.Laws.{get-put_self}
use aioperator.Memory.Knowledge.{KnowledgeEntry, KnowledgeMemory, accepts, learn, recall, save}

pub record Lesson (V : Type 0) : Type 0 where
  pub now : ℕ
  pub value : V
  pub source : String
  pub confidence : ℕ

module _ {V : Type 0} where
  -- The lessons for one key, one behind the other.
  unfoldable pub learn_all : String → List (Lesson V) → KnowledgeMemory V → KnowledgeMemory V
  learn_all key [] m = m
  learn_all key (l ∷ lessons) m =
      learn_all key lessons (learn l.now key l.value l.source l.confidence m)

  -- The lesson that counts: the last one of those with the highest confidence.
  abbrev pub strongest : Lesson V → List (Lesson V) → Lesson V
  strongest best [] = best
  strongest best (l ∷ lessons) =
      if leb best.confidence l.confidence then strongest l lessons else strongest best lessons

  -- The entry of a key has the value and the confidence of a lesson.
  record Holds (key : String) (l : Lesson V) (m : KnowledgeMemory V) : Type 0 where
    pub entry : KnowledgeEntry V
    pub found : get key m.table ≡ some entry
    pub of_value : entry.value ≡ l.value
    pub of_confidence : entry.confidence ≡ l.confidence

  learn-accepted :
      (key : String) (l : Lesson V) (m : KnowledgeMemory V)
      → accepts l.confidence (get key m.table) ≡ true
      → Holds key l (learn l.now key l.value l.source l.confidence m)
  unfolding learn save
  learn-accepted key l m a = rw a (record {
    entry = _;
    found = get-put_self key _ m.table;
    of_value = refl;
    of_confidence = refl;
  })

  accepts_found :
      (key : String) (best l : Lesson V) (m : KnowledgeMemory V)
      → Holds key best m
      → accepts l.confidence (get key m.table) ≡ leb best.confidence l.confidence
  accepts_found key best l m h = rw h.found (ap (λ c. leb c l.confidence) h.of_confidence)

  learn-refused :
      (key : String) (best l : Lesson V) (m : KnowledgeMemory V)
      → accepts l.confidence (get key m.table) ≡ false
      → Holds key best m
      → Holds key best (learn l.now key l.value l.source l.confidence m)
  unfolding learn save
  learn-refused key best l m a h = rw a (record {
    entry = h.entry;
    found = h.found;
    of_value = h.of_value;
    of_confidence = h.of_confidence;
  })

  learn_all-Holds :
      (key : String) (best : Lesson V) (lessons : List (Lesson V)) (m : KnowledgeMemory V)
      → Holds key best m
      → Holds key (strongest best lessons) (learn_all key lessons m)
  unfolding learn_all
  learn_all-Holds key best [] m h = h
  learn_all-Holds key best (l ∷ lessons) m h =
      let m' = learn l.now key l.value l.source l.confidence m in
      elim (Bool-cases (leb best.confidence l.confidence)) [
        | inl b ↦ rw b (
            learn_all-Holds key l lessons m'
              (learn-accepted key l m (accepts_found key best l m h ∙ b)))
        | inr b ↦ rw b (
            learn_all-Holds key best lessons m'
              (learn-refused key best l m (accepts_found key best l m h ∙ b) h))
      ]

  recall-Holds :
      (key : String) (default : V) (l : Lesson V) (m : KnowledgeMemory V)
      → Holds key l m
      → recall key default m ≡ l.value
  unfolding recall
  recall-Holds key default l m h = rw (h.found, recall) h.of_value

  -- Of the lessons for a key that had no entry, the value of the last one with the highest confidence
  -- is recalled.
  pub recall-learn_all :
      (key : String) (default : V) (l : Lesson V) (lessons : List (Lesson V))
      (m : KnowledgeMemory V)
      → get key m.table ≡ none
      → recall key default (learn_all key (l ∷ lessons) m) ≡ (strongest l lessons).value
  unfolding learn_all
  recall-learn_all key default l lessons m n = recall-Holds key default (strongest l lessons) _ (
      learn_all-Holds key l lessons (learn l.now key l.value l.source l.confidence m)
        (learn-accepted key l m (rw n refl)))
