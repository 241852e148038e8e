-- ===== src/Intelligence/Episodes/Bounded.antt =====
-- buster/intelligence/memory.py: the episodic memory holds the last episodes, and counts them.
use aioperator.Prelude.{
  ℕ, ◌+◌, ◌≡◌, List, [], ◌∷◌, String, str_eq, eq_iff, length, keep, get_or, arith,
}
use aioperator.Dict.{Dict, get, put, string_eq}
use aioperator.Dict.Laws.{get-put}
use aioperator.Intelligence.Episodes.{Episode, EpisodicMemory, read, append, count_kinds, stats}

module _ {J : Type 0} where
  abbrev pub append_each : List (Episode J) → EpisodicMemory J → EpisodicMemory J
  append_each [] m = m
  append_each (e ∷ es) m = append_each es (append e m)

  get-count_kinds :
      (es : List (Episode J)) (kinds : Dict String ℕ) (k : String)
      → get_or (get k (count_kinds es kinds)) 0
        ≡ get_or (get k kinds) 0 + length (keep (λ e. str_eq e.kind k) es)
  unfolding count_kinds
  get-count_kinds [] kinds k = omega arith
  get-count_kinds (e ∷ es) kinds k = ground (
    arith,
    get-put e.kind k (get_or (get e.kind kinds) 0 + 1) kinds,
    eq_iff e.kind k,
    get-count_kinds es (put e.kind (get_or (get e.kind kinds) 0 + 1) kinds) k,
  )

  -- Under each kind the statistics count the episodes of that kind.
  pub get-stats :
      (m : EpisodicMemory J) (k : String)
      → get_or (get k (stats m).1) 0 ≡ length (keep (λ e. str_eq e.kind k) (read m))
  unfolding stats get
  get-stats m k = omega (arith, get-count_kinds (read m) [] k)
