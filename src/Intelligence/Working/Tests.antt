-- ===== src/Intelligence/Working/Tests.antt =====
-- A small working memory, and the theorems about it.
use aioperator.Prelude.{ℕ, ◌≡◌, refl, none, some, List, [], ◌∷◌, map, arith}
use aioperator.Intelligence.Working.{
  WorkingItem, WorkingMemory, init, expired, put, get, context, prune_expired,
}
use aioperator.Intelligence.Working.Shadowed.{Call, puts, prunes, get-put}

program : Unit {0}
unfolding init expired put get context prune_expired
program = tt

abbrev two : WorkingMemory ℕ
unfolding program
two = put 6 "b" 20 (some 0) (put 5 "a" 10 (some 3) (init 3 50))

abbrev held : List (WorkingItem ℕ) → List ℕ
held is = map (λ i. i.content) is

-- The older content of a key hides the newer one until it expires or is pushed out.
run_tests :
    (get 7 "a" 0 (put 7 "a" 11 none two) ≡ 10)
    × (get 9 "a" 0 (put 7 "a" 11 none two) ≡ 11)
    × (held (put 9 "d" 40 none (put 8 "c" 30 none two)).items ≡ 20 ∷ 30 ∷ 40 ∷ [])
    × (held (context 9 1 two) ≡ 20 ∷ [])
    × ((prune_expired 9 two).0 ≡ 1)
unfolding program
run_tests = (refl, refl, refl, refl, refl)

abbrev calls : List (Call ℕ)
calls = puts 1 "a" 1 (some 2) ∷ puts 2 "b" 2 none ∷ prunes 3 ∷ puts 4 "c" 3 none ∷ []

get-put_example : get 8 "a" 0 (put 7 "a" 11 none two) ≡ get 8 "a" 11 two
unfolding program
get-put_example = get-put 8 7 "a" 11 0 none two (omega arith) (omega arith)
