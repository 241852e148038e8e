-- ===== src/Memory/Core/Tests.antt =====
-- A memory with one key that expires, and the theorems about it.
use aioperator.Prelude.{ℕ, ◌≡◌, refl, none, some, [], ◌∷◌}
use aioperator.Dict.{get as find, put as set, remove, string_eq}
use aioperator.Memory.Core.{Memory, load, save, put, get, delete, keys, prune_expired}

program : Unit {0}
unfolding find set remove load save put get delete prune_expired keys
program = tt

abbrev memory : Memory ℕ
memory = put 10 "b" 2 none (put 10 "a" 1 (some 5) (load []))

run_tests :
    ((get 15 "a" 0 memory).1 ≡ 1)
    × ((get 16 "a" 0 memory).1 ≡ 0)
    × ((prune_expired 16 memory).1 ≡ 1)
    × (keys 16 memory ≡ "b" ∷ [])
unfolding program
run_tests = (refl, refl, refl, refl)
