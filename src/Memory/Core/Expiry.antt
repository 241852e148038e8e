-- ===== src/Memory/Core/Expiry.antt =====
-- What a read of the memory gives behind the operations that drop expired entries.
use aioperator.Prelude.{
  ℕ, ◌+◌, ◌≡◌, refl, Bool-cases, inl, inr, not, Option, Option-cases, none, some, String,
  if◌then◌else◌, keep, length, ltb, ◌==◌, arith,
}
use aioperator.Dict.{get as find, string_eq}
use aioperator.Dict.Laws.{get-put_self}
use aioperator.Dict.Distinct.{IsDistinct, get-keep}
use aioperator.Memory.Core.{Entry, Memory, is_expired, put, get, prune_expired, save}

module _ {V : Type 0} where
  -- What a read at a time gives for an entry.
  abbrev pub reading : ℕ → V → Option (Entry V) → V
  reading now default none = default
  reading now default (some e) = if is_expired now e then default else e.value

  get-reading :
      (now : ℕ) (key : String) (default : V) (m : Memory V)
      → (get now key default m).1 ≡ reading now default (find key m.table)
  unfolding get
  get-reading now key default m = elim (Option-cases (find key m.table)) [
    | inl q ↦ rw (q, get) refl
    | inr (e, q) ↦ elim (Bool-cases (is_expired now e)) [
      | inl x ↦ rw (q, get, x) refl
      | inr x ↦ rw (q, get, x) refl
    ]
  ]

  table-prune_expired :
      (now : ℕ) (m : Memory V)
      → (prune_expired now m).0.table ≡ keep (λ e. not (is_expired now e.1)) m.table
  unfolding prune_expired save
  table-prune_expired now m =
      elim (Bool-cases (length (keep (λ e. is_expired now e.1) m.table) == 0)) [
        | inl q ↦ rw q refl
        | inr q ↦ rw q refl
      ]

  reading-kept :
      (now : ℕ) (default : V) (o : Option (Entry V))
      → reading now default (elim o as (λ x. Option (Entry V)) [
        | none ↦ none
        | some e ↦ if not (is_expired now e) then some e else none
      ])
        ≡ reading now default o
  reading-kept now default none = refl
  reading-kept now default (some e) = ground arith

  -- Pruning at a time changes no read at that time, in a memory with each key once.
  pub get-prune_expired :
      (now : ℕ) (key : String) (default : V) (m : Memory V)
      → IsDistinct m.table
      → (get now key default (prune_expired now m).0).1 ≡ (get now key default m).1
  get-prune_expired now key default m h = rw (get-reading now key default (prune_expired now m).0) (
      rw (get-reading now key default m) (
        rw (table-prune_expired now m) (
          rw (get-keep (λ e. not (is_expired now e.1)) key m.table h)
            (reading-kept now default (find key m.table)))))

  fresh_reading :
      (now later : ℕ) (value default : V) (ttl : Option ℕ)
      → reading later default (
          some (record {
            value = value;
            expires = elim ttl as (λ x. Option ℕ) [ none ↦ none | some t ↦ some (now + t) ];
          }))
        ≡ elim ttl [ none ↦ value | some t ↦ if ltb (now + t) later then default else value ]
  fresh_reading now later value default none = refl
  fresh_reading now later value default (some t) = refl

  -- A value that was put with a time to live is read until that time has passed, and the default is
  -- read afterwards; without one it is read at every later time.
  pub get-put_ttl :
      (now later : ℕ) (key : String) (value default : V) (ttl : Option ℕ) (m : Memory V)
      → (get later key default (put now key value ttl m)).1
        ≡ elim ttl [ none ↦ value | some t ↦ if ltb (now + t) later then default else value ]
  unfolding put save
  get-put_ttl now later key value default ttl m =
      rw (get-reading later key default (put now key value ttl m))
        (rw (get-put_self key _ m.table) (fresh_reading now later value default ttl))
