-- ===== src/Intelligence/Episodes/Tests.antt =====
-- A small episodic memory, and the theorems about it.
use aioperator.Prelude.{ℕ, String, ◌≡◌, refl, none, some, List, [], ◌∷◌, map, sort_insert, sort_by}
use aioperator.Dict.{get, put, string_eq}
use aioperator.Memory.Lines.{row, junk}
use aioperator.Intelligence.Episodes.{
  Episode, EpisodicMemory, read, trim, append, record_episode, recall, count_kinds, stats,
}
use aioperator.Intelligence.Episodes.Bounded.{append_each}

program : Unit {0}
unfolding get put sort_insert sort_by read trim append record_episode recall count_kinds stats
program = tt

abbrev episode : ℕ → String → String → Episode ℕ
episode ts title kind = record {
  ts = ts;
  title = title;
  kind = kind;
  summary = "";
  outcome = none;
  links = [];
  detail = 0;
}

-- A file with a line that cannot be read.
abbrev old : EpisodicMemory ℕ
old = record { file = some (row (episode 4 "a" "note") ∷ junk ∷ []); capacity = 2 }

abbrev titles : List (Episode ℕ) → List String
titles es = map (λ e. e.title) es

-- The line that cannot be read stays until the file is cut.
run_tests :
    ((append (episode 3 "b" "task") old).file
      ≡ some (row (episode 4 "a" "note") ∷ junk ∷ row (episode 3 "b" "task") ∷ []))
    × (titles (recall 5 none (append (episode 3 "b" "task") old)) ≡ "b" ∷ "a" ∷ [])
    × (titles (read (append_each (episode 3 "b" "task" ∷ episode 5 "c" "note" ∷ []) old))
        ≡ "b" ∷ "c" ∷ [])
    × (titles (recall 0 (some "note") old) ≡ "a" ∷ [])
unfolding program
run_tests = (refl, refl, refl, refl)
