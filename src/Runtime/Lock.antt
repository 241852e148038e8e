-- ===== src/Runtime/Lock.antt =====
-- buster/runtime.py: the lock file of the runtime. Processes are numbers, `alive` is `_pid_alive`. The
-- file remembers the process that made it, since a write goes to the file that the process has opened
-- and not to one of the same name that was made after it; its content is `none` until it is written.
pub mod Alone
pub mod Waiting
mod Tests
use aioperator.Prelude.{
  ℕ, zero, suc, Bool, true, false, Option, none, some, List, [], ◌∷◌, if◌then◌else◌, ◌==◌,
}

pub record LockFile : Type 0 where
  pub maker : ℕ
  pub pid : Option ℕ

-- Where a process stands in `acquire`; the number is that of the rounds left behind this one.
pub data Stage : Type 0 where
  opening : ℕ → Stage
  reading : ℕ → Stage
  removing : ℕ → Stage
  writing : Stage
  holds : Stage
  refused : Stage

abbrev pub begins : Stage
begins = opening 2

-- Processes and the file that they share.
pub record System : Type 0 where
  pub stages : ℕ → Stage
  pub file : Option LockFile

module _ (alive : ℕ → Bool) where
  -- `current and _pid_alive(current.get("pid"))`
  unfoldable pub is_taken : Option LockFile → Bool
  is_taken none = false
  is_taken (some f) = elim f.pid [ none ↦ false | some q ↦ alive q ]

  -- `handle.write(payload)`
  abbrev pub write : ℕ → Option LockFile → Option LockFile
  write p none = none
  write p (some f) = if f.maker == p then some (record { maker = p; pid = some p }) else some f

  -- One call of the operating system by process `p`.
  unfoldable pub step : ℕ → Stage → Option LockFile → Stage × Option LockFile
  unfolding is_taken
  step p (opening zero) file = (refused, file)
  step p (opening (suc n)) none = (writing, some (record { maker = p; pid = none }))
  step p (opening (suc n)) (some f) = (reading n, some f)
  step p (reading n) file = if is_taken file then (refused, file) else (removing n, file)
  step p (removing n) file = (opening n, none)
  step p writing file = (holds, write p file)
  step p holds file = (holds, file)
  step p refused file = (refused, file)

  -- `acquire` of a process that runs alone, and whether it returns True.
  unfoldable pub acquire : ℕ → Option LockFile → Bool × Option LockFile
  unfolding is_taken
  acquire p file =
      if is_taken file then (false, file) else (true, some (record { maker = p; pid = some p }))

  -- Process `p` makes its next call.
  unfoldable pub turn : ℕ → System → System
  unfolding step
  turn p s =
      let (stage, file) = step p (s.stages p) s.file in
      record { stages = λ q. if q == p then stage else s.stages q; file = file }

  unfoldable pub turns : List ℕ → System → System
  unfolding turn
  turns [] s = s
  turns (p ∷ ps) s = turns ps (turn p s)

-- `release`
unfoldable pub release : Option LockFile → Option LockFile
release file = none
