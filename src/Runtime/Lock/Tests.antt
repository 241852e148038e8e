-- ===== src/Runtime/Lock/Tests.antt =====
-- Runs of two processes, and the theorems about the lock.
use aioperator.Prelude.{
  ℕ, ◌≤◌, ◌⊎◌, ◌≡◌, refl, Bool, true, if◌then◌else◌, Option, none, some, [], ◌∷◌, length, arith,
  ◌==◌, ◌||◌,
}
use aioperator.Runtime.Lock.{
  LockFile, holds, refused, begins, is_taken, step, acquire, System, turn, turns, release,
}
use aioperator.Runtime.Lock.Alone.{
  solo, solo-acquire, starts, changes, takes, fails, releases, length-Reach,
}
use aioperator.Runtime.Lock.Waiting.{turns-IsDone}

program : Unit {0}
unfolding is_taken step acquire turn turns release
program = tt

-- Processes 1 and 2 live, 9 does not.
abbrev alive : ℕ → Bool
alive p = p == 1 || p == 2

abbrev stale : Option LockFile
stale = some (record { maker = 9; pid = some 9 })

abbrev fresh : Option LockFile → System
fresh file = record { stages = λ q. begins; file = file }

-- Process 2 reads the file of 1 before it is written, takes it for a stale one and removes it: both
-- processes then have the lock. The same comes of a stale file that both have read. Without an overlap it
-- comes of a second `release` by a process that no longer has the lock.
run_tests :
    ((turns alive (1 ∷ 2 ∷ 2 ∷ 2 ∷ 2 ∷ 2 ∷ 1 ∷ []) (fresh none)).stages 1 ≡ holds)
    × ((turns alive (1 ∷ 2 ∷ 2 ∷ 2 ∷ 2 ∷ 2 ∷ 1 ∷ []) (fresh none)).stages 2 ≡ holds)
    × ((turns alive (1 ∷ 1 ∷ 2 ∷ 2 ∷ 1 ∷ 1 ∷ 1 ∷ 2 ∷ 2 ∷ 2 ∷ []) (fresh stale)).stages 1 ≡ holds)
    × ((turns alive (1 ∷ 1 ∷ 2 ∷ 2 ∷ 1 ∷ 1 ∷ 1 ∷ 2 ∷ 2 ∷ 2 ∷ []) (fresh stale)).stages 2 ≡ holds)
    × ((turns alive (1 ∷ 1 ∷ 2 ∷ 2 ∷ []) (fresh none)).stages 2 ≡ refused)
    × (let taken = acquire alive 2 (release (acquire alive 1 none).1) in
        (taken.0 ≡ true) × ((acquire alive 1 (release taken.1)).0 ≡ true))
unfolding program
run_tests = (refl, refl, refl, refl, refl, (refl, refl))

solo-acquire_example :
    solo alive 7 1 (begins, stale)
    ≡ (if (acquire alive 1 stale).0 then holds else refused, (acquire alive 1 stale).1)
solo-acquire_example = solo-acquire alive 1 stale

-- Process 3 comes to live while 1 has the lock, and does not get it.
length-Reach_example : length {A = ℕ} (1 ∷ []) ≤ 1
unfolding program
length-Reach_example = length-Reach (
    fails 3
      (changes (λ p. p == 1 || p == 3)
        (takes 1 (releases 2 (takes 2 (starts alive stale) refl refl)) refl refl) (refl, tt))
      refl)

turns-IsDone_example :
    ((turns alive (1 ∷ 2 ∷ 1 ∷ 1 ∷ 2 ∷ 1 ∷ 1 ∷ 1 ∷ 1 ∷ []) (fresh stale)).stages 1 ≡ holds)
    ⊎ ((turns alive (1 ∷ 2 ∷ 1 ∷ 1 ∷ 2 ∷ 1 ∷ 1 ∷ 1 ∷ 1 ∷ []) (fresh stale)).stages 1 ≡ refused)
turns-IsDone_example =
    turns-IsDone alive (1 ∷ 2 ∷ 1 ∷ 1 ∷ 2 ∷ 1 ∷ 1 ∷ 1 ∷ 1 ∷ []) 1 (fresh stale) refl (omega arith)
