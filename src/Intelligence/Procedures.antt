-- ===== src/Intelligence/Procedures.antt =====
-- buster/intelligence/memory.py: the recipes of the procedural memory and their file, which is `none`
-- where there is none and else holds the rows that were written last. Times are numbers, `now` is the
-- time of the call, and `ratio` is the rounded quotient.
pub mod Reloaded
mod Tests
use aioperator.Prelude.{
  ℕ, ◌+◌, Bool, true, false, Option, none, some, List, [], ◌∷◌, map, String, if◌then◌else◌, ◌==◌,
}
use aioperator.Dict.{Dict, get, put, values, string_eq}
use aioperator.Dict.Reload.{read_rows}

pub record Recipe : Type 0 where
  pub name : String
  pub steps : List String
  pub uses : ℕ
  pub successes : ℕ
  pub created : ℕ
  pub updated : ℕ

pub record ProceduralMemory : Type 0 where
  pub recipes : Dict String Recipe
  pub file : Option (List Recipe)

-- `__init__` and `_load`
unfoldable pub load : Option (List Recipe) → ProceduralMemory
unfolding read_rows
load none = record { recipes = []; file = none }
load (some rows) = record { recipes = read_rows (λ r. r.name) rows []; file = some rows }

-- `_save`
unfoldable pub save : ProceduralMemory → ProceduralMemory
save m = record m { file = some (values m.recipes) }

unfoldable pub learn_recipe :
    (now : ℕ) (name : String) → List String → ProceduralMemory → ProceduralMemory
unfolding save
learn_recipe now name steps m = save (record m {
  recipes =
      put name
        (record {
          name = name;
          steps = steps;
          uses = 0;
          successes = 0;
          created = now;
          updated = now;
        })
        m.recipes;
})

abbrev pub used : (now : ℕ) (success : Bool) → Recipe → Recipe
used now success r = record r {
  uses = r.uses + 1;
  successes = if success then r.successes + 1 else r.successes;
  updated = now;
}

-- `record_use`; the object that `get` finds is the one in the table.
abbrev pub use_found :
    (now : ℕ) (name : String) (success : Bool) → Option Recipe → ProceduralMemory → ProceduralMemory
unfolding save
use_found now name success none m = m
use_found now name success (some r) m =
    save (record m { recipes = put name (used now success r) m.recipes })

unfoldable pub record_use :
    (now : ℕ) (name : String) (success : Bool) → ProceduralMemory → ProceduralMemory
unfolding use_found
record_use now name success m = use_found now name success (get name m.recipes) m

pub record Row : Type 0 where
  pub name : String
  pub steps : List String
  pub uses : ℕ
  pub successes : ℕ
  pub reliability : ℕ

abbrev pub row_of : (ratio : ℕ → ℕ → ℕ) → Recipe → Row
row_of ratio r = record {
  name = r.name;
  steps = r.steps;
  uses = r.uses;
  successes = r.successes;
  reliability = if r.uses == 0 then 0 else ratio r.successes r.uses;
}

-- `recipes`
unfoldable pub rows : (ratio : ℕ → ℕ → ℕ) → ProceduralMemory → List Row
rows ratio m = map (row_of ratio) (values m.recipes)
