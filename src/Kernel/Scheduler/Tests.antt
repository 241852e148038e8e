-- ===== src/Kernel/Scheduler/Tests.antt =====
-- A run of the scheduler, and the theorems about it at its states.
use aioperator.Kernel.Scheduler.Execute.{
  Turns, thread, taken, checked, take_entry, check_hand, mark, checks, still, turned,
}
use aioperator.Prelude.{ℕ, ◌≡◌, ◌≢◌, refl, none, some, pos, negsuc, arith, true}
use aioperator.Dict.{get, put, remove as pop, nat_eq}
use aioperator.Kernel.Scheduler.{
  Scheduler, Job, init, start, stop, schedule, cancel, lookup, remove, purge, drop_expired, plan,
  begin, finish, round, period, less, heappush, pending, running, failed, status_of, cancelled,
}
use aioperator.Kernel.Scheduler.Steps.{starts, schedules}
use aioperator.Kernel.Scheduler.Cancel.{cancel_final}
use aioperator.Kernel.Scheduler.Held.{new_worker}
use aioperator.Kernel.Scheduler.Rounds.{idle, IsLeastDue, round_least, round_progress}

program : Unit {0}
unfolding get put pop start stop schedule cancel lookup remove purge drop_expired plan begin finish
    round period less heappush take_entry check_hand mark
program = tt

abbrev on : Scheduler
on = start init

-- A periodic job at 100, and one with a higher priority number at the same time.
abbrev one : Scheduler
one = schedule 1 "tick" 100 (negsuc 4) (some (pos 50)) (pos 1) on

abbrev two : Scheduler
two = schedule 2 "once" 90 (pos 10) none (pos 0) one

abbrev ran : Scheduler
ran = (begin two).0

run_tests :
    ((round 99 two).1 ≡ none)
    × ((round 100 two).1 ≡ some 2)
    × ((round 100 (cancel 2 two).0).1 ≡ some 1)
    × (status_of 2 (finish 105 2 (some "boom") ran) ≡ some failed)
    × ((remove 2 two).1 ≡ get 2 two.objects)
    × ((round 200 (stop two)).1 ≡ none)
unfolding program
run_tests = (refl, refl, refl, refl, refl, refl)

on-two : Turns new_worker (idle two)
unfolding program
on-two =
    turned
      (turned (turned still (thread starts))
        (thread (schedules 1 "tick" 100 (negsuc 4) (some (pos 50)) (pos 1) refl)))
      (thread (schedules 2 "once" 90 (pos 10) none (pos 0) refl))

-- The worker has found job 2 pending when it is cancelled: `cancel` says True, and the job runs.
abbrev late : Scheduler
unfolding program
late = (cancel 2 (take_entry two).scheduler).0

late_tests :
    ((check_hand 2 (take_entry two).scheduler).hand ≡ checked 2)
    × ((cancel 2 (take_entry two).scheduler).1 ≡ true)
    × (status_of 2 late ≡ some cancelled)
    × (status_of 2 (mark 2 late) ≡ some running)
unfolding program
late_tests = (refl, refl, refl, refl)

cancel_final_example :
    (status_of 2 (check_hand 2 late).scheduler ≡ some cancelled)
    × ((check_hand 2 late).hand ≢ checked 2)
    × ((begin (check_hand 2 late).scheduler).1 ≢ some 2)
unfolding program
cancel_final_example =
    cancel_final 2 (take_entry two).scheduler (taken 2) {w = check_hand 2 late} refl (λ e. cc e)
      (turned still (checks 2 late))

round_least_example : IsLeastDue 100 2 two
unfolding program
round_least_example = round_least 100 2 {s = two} on-two refl

abbrev once : Job
once = record {
  name = "once";
  run_at = 100;
  interval = none;
  priority = pos 0;
  status = pending;
  error = none;
}

round_progress_example : (id : ℕ) × ((round 120 two).1 ≡ some id)
unfolding program
round_progress_example = round_progress 120 2 once {s = two} on-two refl refl refl (omega arith)
