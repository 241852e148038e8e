-- ===== src/Intelligence/Episodes.antt =====
-- buster/intelligence/memory.py: the episodic memory, a bounded file of episodes. `J` is the type of an
-- episode's details, times are numbers, and `now` is the time of the call.
pub mod Bounded
mod Tests
use aioperator.Prelude.{
  ℕ, ◌+◌, Option, none, some, List, [], ◌∷◌, ◌++◌, map, String, str_eq, if◌then◌else◌, leb, ltb,
  length, keep, last_n, get_or, sort_by,
}
use aioperator.Dict.{Dict, get, put, string_eq}
use aioperator.Memory.Lines.{Line, row, readable, lines_of}

pub record Episode (J : Type 0) : Type 0 where
  pub ts : ℕ
  pub title : String
  pub kind : String
  pub summary : String
  pub outcome : Option String
  pub links : List String
  pub detail : J

pub record EpisodicMemory (J : Type 0) : Type 0 where
  pub file : Option (List (Line (Episode J)))
  pub capacity : ℕ

module _ {J : Type 0} where
  -- `_read`
  unfoldable pub read : EpisodicMemory J → List (Episode J)
  read m = readable (lines_of m.file)

  -- `_trim`
  unfoldable pub trim : EpisodicMemory J → EpisodicMemory J
  unfolding read
  trim m =
      if leb (length (read m)) m.capacity
      then m
      else record m { file = some (map row (last_n m.capacity (read m))) }

  unfoldable pub append : Episode J → EpisodicMemory J → EpisodicMemory J
  unfolding trim
  append e m = trim (record m { file = some (lines_of m.file ++ row e ∷ []) })

  -- `record`
  unfoldable pub record_episode :
      (now : ℕ) (title kind summary : String)
      → Option String
      → (links : Option (List String)) → J
      → EpisodicMemory J
      → EpisodicMemory J
  unfolding append
  record_episode now title kind summary outcome links detail m =
      append
        (record {
          ts = now;
          title = title;
          kind = kind;
          summary = summary;
          outcome = outcome;
          links = get_or links [];
          detail = detail;
        })
        m

  -- `[e for e in entries if e.get("kind") == kind]`, where a kind is given that is not empty.
  abbrev pub of_kind : Option String → List (Episode J) → List (Episode J)
  of_kind none es = es
  of_kind (some kind) es = if str_eq kind "" then es else keep (λ e. str_eq e.kind kind) es

  unfoldable pub recall : (limit : ℕ) → Option String → EpisodicMemory J → List (Episode J)
  unfolding read
  recall limit kind m = last_n limit (sort_by (λ a b. ltb a.ts b.ts) (of_kind kind (read m)))

  unfoldable pub count_kinds : List (Episode J) → Dict String ℕ → Dict String ℕ
  count_kinds [] kinds = kinds
  count_kinds (e ∷ es) kinds = count_kinds es (put e.kind (get_or (get e.kind kinds) 0 + 1) kinds)

  unfoldable pub stats : EpisodicMemory J → ℕ × Dict String ℕ
  unfolding read count_kinds
  stats m = (length (read m), count_kinds (read m) [])
