-- ===== src/Memory/Knowledge/Tests.antt =====
-- Lessons for one key, and the theorem about them.
use aioperator.Prelude.{ℕ, ◌≡◌, refl, none, some, List, [], ◌∷◌, map, sort_insert, sort_by, str_eq}
use aioperator.Dict.{get, put, string_eq}
use aioperator.Dict.Reload.{read_rows}
use aioperator.Memory.Knowledge.{KnowledgeMemory, load, save, learn, recall, search}
use aioperator.Memory.Knowledge.Confidence.{Lesson, learn_all}

program : Unit {0}
unfolding get put read_rows sort_insert sort_by load save learn recall search learn_all
program = tt

abbrev lesson : ℕ → ℕ → ℕ → Lesson ℕ
lesson now value confidence = record {
  now = now;
  value = value;
  source = "system";
  confidence = confidence;
}

abbrev lessons : List (Lesson ℕ)
lessons = lesson 2 22 900 ∷ lesson 3 33 400 ∷ []

abbrev fresh : KnowledgeMemory ℕ
fresh = load none

abbrev taught : KnowledgeMemory ℕ
taught = learn 9 "b" 5 "user" 100 (learn_all "a" (lesson 1 11 500 ∷ lessons) fresh)

run_tests :
    (recall "a" 0 taught ≡ 22)
    × (recall "c" 0 taught ≡ 0)
    × (map (λ e. e.key) (search (λ k. str_eq k k) none taught) ≡ "b" ∷ "a" ∷ [])
    × (map (λ e. e.key) (search (λ k. str_eq k k) (some 1) taught) ≡ "b" ∷ [])
unfolding program
run_tests = (refl, refl, refl, refl)
