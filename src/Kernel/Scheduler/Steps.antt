-- ===== src/Kernel/Scheduler/Steps.antt =====
-- The calls of the scheduler's methods by any thread, and the ends of jobs, as steps. Each is one step.
-- Left out is that the worker writes RUNNING between the test and the write of one `cancel`, and that a
-- `cancel` comes between the end of a periodic job, which is PENDING again, and its push, which writes no
-- status.
use aioperator.Prelude.{ℕ, ◌≡◌, Option, none, some, String, ℤ}
use aioperator.Dict.{get, nat_eq}
use aioperator.Kernel.Scheduler.{
  Scheduler, running, status_of, start, stop, schedule, cancel, remove, finish,
}

-- `schedule` draws a fresh id: no live job has it. Only a job that runs ends.
pub data Step (s : Scheduler) : Scheduler → Type 0 where
  starts : Step s (start s)
  stops : Step s (stop s)
  schedules :
      (id : ℕ) (name : String) (now : ℕ) (delay : ℤ) (every : Option ℤ) (priority : ℤ)
      → get id s.objects ≡ none
      → Step s (schedule id name now delay every priority s)
  cancels : (id : ℕ) → Step s (cancel id s).0
  removes : (id : ℕ) → Step s (remove id s).0
  finishes :
      (now id : ℕ) (raised : Option String)
      → status_of id s ≡ some running
      → Step s (finish now id raised s)
