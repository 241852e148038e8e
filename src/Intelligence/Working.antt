-- ===== src/Intelligence/Working.antt =====
-- buster/intelligence/memory.py: the working memory. Contents are of any type `V`; times and lifetimes
-- are numbers, `now` is the time of the call.
pub mod Shadowed
mod Tests
use aioperator.Prelude.{
  ℕ, ◌-◌, Bool, not, ◌&&◌, Option, none, some, List, [], ◌∷◌, ◌++◌, String, str_eq, if◌then◌else◌,
  ltb, ◌==◌, first, keep, last_n, latest, length, map,
}

pub record WorkingItem (V : Type 0) : Type 0 where
  pub key : String
  pub content : V
  pub ts : ℕ
  pub ttl : ℕ

pub record WorkingMemory (V : Type 0) : Type 0 where
  pub items : List (WorkingItem V)
  pub maxlen : ℕ
  pub default_ttl : ℕ

-- `ttl or self._default_ttl`
abbrev pub ttl_or : Option ℕ → ℕ → ℕ
ttl_or none d = d
ttl_or (some t) d = if t == 0 then d else t

module _ {V : Type 0} where
  unfoldable pub init : (capacity default_ttl : ℕ) → WorkingMemory V
  init capacity default_ttl = record { items = []; maxlen = capacity; default_ttl = default_ttl }

  unfoldable pub expired : ℕ → WorkingItem V → Bool
  expired now i = ltb i.ttl (now - i.ts)

  unfoldable pub put : (now : ℕ) (key : String) → V → Option ℕ → WorkingMemory V → WorkingMemory V
  put now key content ttl m = record m {
    items = latest m.maxlen (
        m.items
        ++ record { key = key; content = content; ts = now; ttl = ttl_or ttl m.default_ttl } ∷ []);
  }

  -- The test of the loop of `get`.
  abbrev pub answers : ℕ → String → WorkingItem V → Bool
  unfolding expired
  answers now key i = str_eq i.key key && not (expired now i)

  abbrev pub content_or : V → Option (WorkingItem V) → V
  content_or default none = default
  content_or default (some i) = i.content

  unfoldable pub get : (now : ℕ) (key : String) → V → WorkingMemory V → V
  get now key default m = content_or default (first (answers now key) m.items)

  -- The items of the rows that `context` returns.
  unfoldable pub context : (now limit : ℕ) → WorkingMemory V → List (WorkingItem V)
  unfolding expired
  context now limit m = keep (λ i. not (expired now i)) (last_n limit m.items)

  unfoldable pub prune_expired : ℕ → WorkingMemory V → ℕ × WorkingMemory V
  unfolding expired
  prune_expired now m =
      let kept = keep (λ i. not (expired now i)) m.items in
      (length m.items - length kept, record m { items = latest m.maxlen kept })
