-- ===== src/Memory/Knowledge.antt =====
-- buster/memory/knowledge.py: learned facts with their confidence. Values are of any type `V`, keys are
-- texts, confidences are in thousandths, `now` is the time of the call. `less_key` is `<` on keys, and
-- the file is the list of rows that `_save` wrote last, `none` when there is no file.
pub mod Confidence
mod Tests
use aioperator.Prelude.{
  ℕ, Bool, true, false, Option, none, some, List, [], ◌∷◌, String, if◌then◌else◌, keep, take, ltb,
  leb, sort_by, get_or,
}
use aioperator.Dict.{Dict, get, put, keys as all_keys, values, string_eq}
use aioperator.Dict.Reload.{read_rows}

pub record KnowledgeEntry (V : Type 0) : Type 0 where
  pub key : String
  pub value : V
  pub source : String
  pub confidence : ℕ
  pub created : ℕ
  pub updated : ℕ

pub record KnowledgeMemory (V : Type 0) : Type 0 where
  pub table : Dict String (KnowledgeEntry V)
  pub file : Option (List (KnowledgeEntry V))

module _ {V : Type 0} where
  -- `__init__` and `_load` on a file that can be read.
  unfoldable pub load : Option (List (KnowledgeEntry V)) → KnowledgeMemory V
  load none = record { table = []; file = none }
  load (some rows) = record { table = read_rows (λ e. e.key) rows []; file = some rows }

  unfoldable pub save : KnowledgeMemory V → KnowledgeMemory V
  save m = record m { file = some (values m.table) }

  -- `existing is None or confidence >= existing.confidence`
  abbrev pub accepts : ℕ → Option (KnowledgeEntry V) → Bool
  accepts confidence none = true
  accepts confidence (some e) = leb e.confidence confidence

  unfoldable pub learn :
      (now : ℕ) (key : String)
      → V
      → (source : String) (confidence : ℕ) → KnowledgeMemory V
      → KnowledgeMemory V
  unfolding save
  learn now key value source confidence m =
      if accepts confidence (get key m.table)
      then save (record m {
        table =
            put key
              (record {
                key = key;
                value = value;
                source = source;
                confidence = confidence;
                created = now;
                updated = now;
              })
              m.table;
      })
      else save m

  unfoldable pub recall : String → V → KnowledgeMemory V → V
  recall key default m = elim (get key m.table) [ none ↦ default | some e ↦ e.value ]

  unfoldable pub entries : KnowledgeMemory V → List (KnowledgeEntry V)
  entries m = values m.table

  unfoldable pub keys : (less_key : String → String → Bool) → KnowledgeMemory V → List String
  keys less_key m = sort_by less_key (all_keys m.table)

  -- `matches` is `key.startswith(prefix)`; the newest first.
  unfoldable pub search :
      (matches : String → Bool) (limit : Option ℕ) → KnowledgeMemory V → List (KnowledgeEntry V)
  search matches limit m =
      let found =
        sort_by (λ a b. ltb b.updated a.updated) (keep (λ e. matches e.key) (values m.table)) in
      elim limit [ none ↦ found | some n ↦ take n found ]

  unfoldable pub clear : KnowledgeMemory V → KnowledgeMemory V
  unfolding save
  clear m = save (record m { table = [] })
