-- ===== src/Kernel/Scheduler/Cancel.antt =====
-- A cancelled job never runs, if the worker was not about to run it.
use aioperator.Kernel.Scheduler.Execute.{
  Hand, nothing, taken, checked, Worker, take_from, take_entry, check_hand, mark_job, mark, Turn,
  thread, purges, takes, checks, marks, Turns, still, turned,
}
use mathlib.Core.Bool.{true≢false}
use aioperator.Prelude.{
  ℕ, ◌≡◌, ◌≢◌, true, Option, none, some, [], ◌∷◌, arith, ==_iff, Option-cases, String, ◌+◌, List,
  inl, inr, sym, ap, ◌∙◌, false, Bool-cases,
}
use aioperator.Dict.{get, put, nat_eq}
use aioperator.Dict.Laws.{get-put}
use aioperator.Kernel.Scheduler.{
  Entry, Scheduler, Job, pending, running, cancelled, status_of, start, stop, push, schedule,
  lookup, cancel, remove, purge, begin, pop_top, settle, finish, period, outcome, set_status, waits,
}
use aioperator.Kernel.Scheduler.Steps.{Step, starts, stops, schedules, cancels, removes, finishes}

module _ (id : ℕ) where
  abbrev IsCancelled : Scheduler → Type 0
  IsCancelled s = status_of id s ≡ some cancelled

  -- A write to the object of another job, or of one that is not cancelled.
  put-cancelled :
      (id' : ℕ) (job : Job) (s : Scheduler)
      → status_of id' s ≢ some cancelled
      → IsCancelled s
      → IsCancelled (record s { objects = put id' job s.objects })
  put-cancelled id' job s other h = ground (arith, get-put id' id job s.objects, ==_iff id' id)

  schedule-IsCancelled :
      (id' : ℕ) (job : Job) (s : Scheduler)
      → get id' s.objects ≡ none
      → IsCancelled s
      → IsCancelled (push id' job s)
  unfolding push
  schedule-IsCancelled id' job s fresh h = put-cancelled id' job s (ground arith) h

  cancel-IsCancelled : (id' : ℕ) (s : Scheduler) → IsCancelled s → IsCancelled (cancel id' s).0
  unfolding cancel lookup
  cancel-IsCancelled id' s h = elim (Option-cases (get id' s.objects)) [
    | inl e ↦ ground arith
    | inr (job, e) ↦ ground (arith, put-cancelled id' (set_status cancelled job) s)
  ]

  settle-IsCancelled :
      (now id' : ℕ) (raised : Option String) (job : Job) (every : Option ℕ) (s : Scheduler)
      → status_of id' s ≢ some cancelled
      → IsCancelled s
      → IsCancelled (settle now id' raised job every s)
  unfolding settle push
  settle-IsCancelled now id' raised job none s r h = put-cancelled id' (outcome raised job) s r h
  settle-IsCancelled now id' raised job (some n) s r h =
      put-cancelled id' (record job { run_at = now + n; status = pending; error = none }) s r h

  finish-IsCancelled :
      (now id' : ℕ) (raised : Option String) (s : Scheduler)
      → status_of id' s ≡ some running
      → IsCancelled s
      → IsCancelled (finish now id' raised s)
  unfolding finish
  finish-IsCancelled now id' raised s r h = elim (Option-cases (get id' s.objects)) [
    | inl q ↦ ground arith
    | inr (job, q) ↦
        rw (q, finish) (settle-IsCancelled now id' raised job (period job) s (ground arith) h)
  ]

  Step-IsCancelled : {s t : Scheduler} → Step s t → IsCancelled s → IsCancelled t
  unfolding start stop schedule remove
  Step-IsCancelled starts h = ground arith
  Step-IsCancelled stops h = ground arith
  Step-IsCancelled {s} (schedules id' name now delay every priority fresh) h =
      schedule-IsCancelled id' _ s fresh h
  Step-IsCancelled {s} (cancels id') h = cancel-IsCancelled id' s h
  Step-IsCancelled (removes id') h = h
  Step-IsCancelled {s} (finishes now id' raised r) h = finish-IsCancelled now id' raised s r h

  pop_top-not-cancelled :
      (heap : List Entry) (s : Scheduler) → IsCancelled s → (pop_top heap s).1 ≢ some id
  unfolding pop_top
  pop_top-not-cancelled [] s h = ground arith
  pop_top-not-cancelled (e ∷ heap) s h = ground (arith, ==_iff e.id id)

  cancel-eq-true : (s : Scheduler) → (cancel id s).1 ≡ true → IsCancelled (cancel id s).0
  unfolding cancel lookup
  cancel-eq-true s h = elim (Option-cases (get id s.objects)) [
    | inl q ↦ absurd (ground arith)
    | inr (job, q) ↦
        ground (arith, get-put id id (set_status cancelled job) s.objects, ==_iff id id)
  ]

  -- The job is cancelled, and the worker is not about to run it.
  abbrev IsOut : Worker → Type 0
  IsOut w = IsCancelled w.scheduler × (w.hand ≢ checked id)

  waits-cancelled : (s : Scheduler) → IsCancelled s → waits s.objects id ≡ false
  waits-cancelled s h = elim (Option-cases (get id s.objects)) [
    | inl q ↦ ground arith
    | inr (job, q) ↦ ground arith
  ]

  abbrev checked_id : Hand → ℕ
  checked_id nothing = 0
  checked_id (taken i) = i
  checked_id (checked i) = i

  nothing-ne-checked : nothing ≢ checked id
  nothing-ne-checked e = cc e

  taken-ne-checked : (i : ℕ) → taken i ≢ checked id
  taken-ne-checked i e = cc e

  check-IsOut : (id' : ℕ) (s : Scheduler) → IsCancelled s → IsOut (check_hand id' s)
  unfolding check_hand
  check-IsOut id' s h = elim (Bool-cases (waits s.objects id')) [
    | inl q ↦
        rw q (
          h,
          λ e. true≢false (sym q ∙ ap (waits s.objects) (ap checked_id e) ∙ waits-cancelled s h),
        )
    | inr q ↦ rw q (h, nothing-ne-checked)
  ]

  take-IsOut : (heap : List Entry) (s : Scheduler) → IsCancelled s → IsOut (take_from heap s)
  take-IsOut [] s h = (h, nothing-ne-checked)
  take-IsOut (e ∷ heap) s h = (h, taken-ne-checked e.id)

  mark-IsCancelled :
      (id' : ℕ) (found : Option Job) (s : Scheduler)
      → id' ≢ id
      → IsCancelled s
      → IsCancelled (mark_job id' found s)
  mark-IsCancelled id' none s n h = h
  mark-IsCancelled id' (some job) s n h =
      ground (arith, get-put id' id (set_status running job) s.objects, ==_iff id' id, n, h)

  Turn-IsOut : {w v : Worker} → Turn w v → IsOut w → IsOut v
  unfolding take_entry mark purge
  Turn-IsOut (thread st) h = (Step-IsCancelled st h.0, h.1)
  Turn-IsOut (purges s) h = h
  Turn-IsOut (takes s) h = take-IsOut s.heap s h.0
  Turn-IsOut (checks id' s) h = check-IsOut id' s h.0
  Turn-IsOut (marks id' s) h =
      (mark-IsCancelled id' (get id' s.objects) s (λ e. h.1 (ap checked e)) h.0, nothing-ne-checked)

  Turns-IsOut : {w v : Worker} → Turns w v → IsOut w → IsOut v
  Turns-IsOut still h = h
  Turns-IsOut (turned r st) h = Turn-IsOut st (Turns-IsOut r h)

  -- A job that `cancel` reports as cancelled never runs, unless the worker has the job in hand and has
  -- found it pending before `cancel` writes its status: whatever accesses of the worker and calls of
  -- other threads follow, the job stays cancelled, the worker does not come to write RUNNING and call
  -- its function, and no `_execute` that no other thread comes into begins it either.
  pub cancel_final :
      (s : Scheduler) (hand : Hand) {w : Worker}
      → (cancel id s).1 ≡ true
      → hand ≢ checked id
      → Turns (record { scheduler = (cancel id s).0; hand = hand }) w
      → (status_of id w.scheduler ≡ some cancelled)
        × (w.hand ≢ checked id)
        × ((begin w.scheduler).1 ≢ some id)
  unfolding begin
  cancel_final s hand {w} h n r =
      let out = Turns-IsOut r (cancel-eq-true s h, n) in
      (out.0, out.1, pop_top-not-cancelled w.scheduler.heap w.scheduler out.0)
