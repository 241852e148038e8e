-- ===== src/Intelligence/Working/Shadowed.antt =====
-- buster/intelligence/memory.py: the bound of the working memory and what `get` finds in it.
use aioperator.Prelude.{
  ℕ, ◌-◌, ◌≤◌, ◌<◌, ◌≡◌, refl, ap, ◌∙◌, true, not, ◌&&◌, Bool-cases, inl, inr, Option, none, some,
  List, [], ◌∷◌, ◌++◌, String, str_eq, eq_refl, ltb, first, latest, latest_short, length,
  length-append, arith,
}
use aioperator.Intelligence.Working.{
  WorkingItem, WorkingMemory, expired, ttl_or, put, answers, content_or, get, prune_expired,
}

-- The calls that change the memory.
pub data Call (V : Type 0) : Type 0 where
  puts : ℕ → String → V → Option ℕ → Call V
  prunes : ℕ → Call V

is_new :
    (now t ttl : ℕ) (key : String)
    → now - t ≤ ttl
    → (str_eq key key && not (ltb ttl (now - t))) ≡ true
is_new now t ttl key h = ground (arith, eq_refl key)

module _ {V : Type 0} where
  abbrev pub run : List (Call V) → WorkingMemory V → WorkingMemory V
  run [] m = m
  run (puts now key content ttl ∷ calls) m = run calls (put now key content ttl m)
  run (prunes now ∷ calls) m = run calls (prune_expired now m).1

  pub record IsBounded (m : WorkingMemory V) : Type 0 where
    pub bound : length m.items ≤ m.maxlen

  first_new :
      (now : ℕ) (new : WorkingItem V)
      → now - new.ts ≤ new.ttl
      → first (answers now new.key) (new ∷ []) ≡ some new
  unfolding expired
  first_new now new h = rw (is_new now new.ts new.ttl new.key h) refl

  first-append_new :
      (now : ℕ) (xs : List (WorkingItem V)) (new : WorkingItem V)
      → now - new.ts ≤ new.ttl
      → first (answers now new.key) (xs ++ new ∷ [])
        ≡ elim (first (answers now new.key) xs) [ none ↦ some new | some x ↦ some x ]
  first-append_new now [] new h = first_new now new h
  first-append_new now (x ∷ xs) new h = elim (Bool-cases (answers now new.key x)) [
    | inl q ↦ rw q refl
    | inr q ↦ rw q (first-append_new now xs new h)
  ]

  content_or-behind :
      (o : Option (WorkingItem V)) (new : WorkingItem V) (default : V)
      → content_or default (elim o [ none ↦ some new | some x ↦ some x ]) ≡ content_or new.content o
  content_or-behind none new default = refl
  content_or-behind (some i) new default = refl

  -- In a memory with room, `get` answers an older item of the key that has not expired, and the item
  -- that was put last only where there is none.
  pub get-put :
      (now t : ℕ) (key : String) (content default : V) (ttl : Option ℕ) (m : WorkingMemory V)
      → length m.items < m.maxlen
      → now - t ≤ ttl_or ttl m.default_ttl
      → get now key default (put t key content ttl m) ≡ get now key content m
  unfolding get put expired
  get-put now t key content default ttl m room alive =
      let new : WorkingItem V = record {
        key = key;
        content = content;
        ts = t;
        ttl = ttl_or ttl m.default_ttl;
      } in
      let fits : latest m.maxlen (m.items ++ new ∷ []) ≡ m.items ++ new ∷ [] =
        latest_short m.maxlen (m.items ++ new ∷ [])
          (omega (arith, length-append m.items (new ∷ []))) in
      ap (λ l. content_or default (first (answers now key) l)) fits
      ∙ ap (content_or default) (first-append_new now m.items new alive)
      ∙ content_or-behind (first (answers now key) m.items) new default
