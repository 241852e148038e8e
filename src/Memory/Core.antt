-- ===== src/Memory/Core.antt =====
-- buster/memory/core.py: the key-value memory with expiry. Values are of any type `V`, `now` is the
-- time of the call, a time to live is a number of time units. The file holds the table that `_save`
-- wrote last; an `OSError` on writing is logged and leaves the table as it is.
pub mod Expiry
mod Tests
use aioperator.Prelude.{
  ℕ, ◌+◌, Bool, true, false, not, Option, none, some, List, [], ◌∷◌, map, String, if◌then◌else◌,
  keep, length, ltb, ◌==◌, get_or,
}
use aioperator.Dict.{Dict, get as find, put as set, remove, has, keys as all_keys, string_eq}

pub record Entry (V : Type 0) : Type 0 where
  pub value : V
  pub expires : Option ℕ

pub record Memory (V : Type 0) : Type 0 where
  pub table : Dict String (Entry V)
  pub file : Dict String (Entry V)

-- `expires is not None and now > expires`
abbrev pub is_expired : {V : Type 0} → ℕ → Entry V → Bool
is_expired now e = elim e.expires [ none ↦ false | some t ↦ ltb t now ]

module _ {V : Type 0} where
  -- `__init__` and `_load` on a file that can be read.
  unfoldable pub load : Dict String (Entry V) → Memory V
  load file = record { table = file; file = file }

  unfoldable pub save : Memory V → Memory V
  save m = record m { file = m.table }

  unfoldable pub put : ℕ → String → V → Option ℕ → Memory V → Memory V
  unfolding save
  put now key value ttl m = save (record m {
    table =
        set key
          (record { value = value; expires = elim ttl [ none ↦ none | some t ↦ some (now + t) ] })
          m.table;
  })

  -- An expired entry is dropped on the way.
  unfoldable pub get : ℕ → String → V → Memory V → Memory V × V
  unfolding save
  get now key default m = elim (find key m.table) [
    | none ↦ (m, default)
    | some e ↦
        if is_expired now e
        then (save (record m { table = remove key m.table }), default)
        else (m, e.value)
  ]

  unfoldable pub delete : String → Memory V → Memory V × Bool
  unfolding save
  delete key m =
      if has key m.table then (save (record m { table = remove key m.table }), true) else (m, false)

  unfoldable pub keys : ℕ → Memory V → List String
  keys now m = all_keys (keep (λ e. not (is_expired now e.1)) m.table)

  unfoldable pub prune_expired : ℕ → Memory V → Memory V × ℕ
  unfolding save
  prune_expired now m =
      let expired = length (keep (λ e. is_expired now e.1) m.table) in
      let m' : Memory V = record m { table = keep (λ e. not (is_expired now e.1)) m.table } in
      (if expired == 0 then m' else save m', expired)

  unfoldable pub clear : Memory V → Memory V
  unfolding save
  clear m = save (record m { table = [] })
