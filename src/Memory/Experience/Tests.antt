-- ===== src/Memory/Experience/Tests.antt =====
-- A small file of experiences, and the theorems about it.
use aioperator.Prelude.{
  ℕ, String, ◌≡◌, refl, none, some, List, [], ◌∷◌, map, codes, sort_insert, sort_by,
}
use aioperator.Prelude.Strings.{same_text}
use aioperator.Dict.{get, put}
use aioperator.Memory.Lines.{row, junk}
use aioperator.Memory.Experience.{
  Experience, ExperienceMemory, lines, trim, store, recall, count, clear, count_each, most_common,
  stats_of, summarise, stats,
}
use aioperator.Memory.Experience.Capped.{store_each}

program : Unit {0}
unfolding get put same_text sort_insert sort_by lines trim store recall count clear count_each
    most_common stats_of summarise stats
program = tt

abbrev run_of : ℕ → String → String → Experience
run_of ts status target = record {
  ts = ts;
  status = some status;
  target = some (codes target);
  error = none;
  agent = none;
}

abbrev empty : ExperienceMemory
empty = record { file = none; capacity = 3 }

abbrev runs : List Experience
runs = run_of 1 "done" "a" ∷ run_of 2 "failed" "b" ∷ run_of 3 "done" "b" ∷ run_of 4 "open" "b" ∷ []

abbrev filled : ExperienceMemory
filled = record {
  file = some (map row (run_of 1 "done" "a" ∷ run_of 2 "failed" "b" ∷ run_of 3 "open" "b" ∷ []));
  capacity = 3;
}

run_tests :
    (recall (some 1) (store_each runs empty) ≡ some (run_of 4 "open" "b" ∷ []))
    × (count (store_each runs empty) ≡ 3)
    × (recall none (record { file = some (junk ∷ []); capacity = 3 }) ≡ none)
    × ((stats_of (run_of 1 "done" "a" ∷ run_of 2 "failed" "b" ∷ run_of 3 "open" "b" ∷ [])).top_goals
        ≡ (codes "b", 2) ∷ (codes "a", 1) ∷ [])
unfolding program
run_tests = (refl, refl, refl, refl)
