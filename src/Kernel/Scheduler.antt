-- ===== src/Kernel/Scheduler.antt =====
-- buster/kernel/scheduler.py: the heap of entries, the job objects and the `_jobs` dictionary.
-- Times are milliseconds of the monotonic clock, passed in as `now`. A job's id is a number: uuid
-- texts have one length, so their order is that of the numbers. The heap is the list of its
-- entries in the order in which `heappop` returns them, which is all that the code uses of it.
-- What a job's function does is up to its caller: `_execute` is `begin`, up to the call of the
-- function, and `finish` with the exception that it raised. `begin` and `round` are what the worker does
-- when no other thread comes between; `Execute` has its accesses one by one, of which those to a status
-- do not hold the lock, with the calls of other threads between any two of them, and shows that in a row
-- they are `begin`.
mod Heap
pub mod Steps
pub mod Order
pub mod Execute
pub mod Held
pub mod Cancel
pub mod Rounds
mod Tests
pub use Heap.{Entry}
unfoldable pub use Heap.{less, heappush}
use aioperator.Prelude.{
  ℕ, zero, ◌+◌, ◌-◌, Bool, true, false, not, ◌&&◌, Option, none, some, List, [], ◌∷◌, map, String,
  if◌then◌else◌, ltb, min, ℤ, pos, negsuc, pos_part, keep, sort_by, ◌==◌,
}
use aioperator.Dict.{Dict, get, put, remove as pop, keys, values, has, nat_eq}

pub data JobStatus : Type 0 where
  pending running completed cancelled failed : JobStatus

pub record Job : Type 0 where
  pub name : String
  pub run_at : ℕ
  pub interval : Option ℤ
  pub priority : ℤ
  pub status : JobStatus
  pub error : Option String

-- `objects` holds every job object that is alive, by its id; `jobs` are the keys of `_jobs`.
pub record Scheduler : Type 0 where
  pub heap : List Entry
  pub objects : Dict ℕ Job
  pub jobs : Dict ℕ (Unit {0})
  pub is_running : Bool

abbrev pub init : Scheduler
init = record { heap = []; objects = []; jobs = []; is_running = false }

-- The interval of a periodic job.
unfoldable pub period : Job → Option ℕ
period job = elim job.interval [
  | none ↦ none
  | some z ↦ let n = pos_part z in if ltb 0 n then some n else none
]

abbrev pub entry : ℕ → Job → Entry
entry id job = record { run_at = job.run_at; priority = job.priority; id = id }

-- `is` on the members of the enumeration.
abbrev pub code_of : JobStatus → ℕ
code_of pending = 0
code_of running = 1
code_of completed = 2
code_of cancelled = 3
code_of failed = 4

abbrev pub same_status : JobStatus → JobStatus → Bool
same_status a b = code_of a == code_of b

abbrev pub is_pending : JobStatus → Bool
is_pending pending = true
is_pending _ = false

abbrev pub status_of : ℕ → Scheduler → Option JobStatus
status_of id s = elim (get id s.objects) [ none ↦ none | some job ↦ some job.status ]

abbrev pub waits : Dict ℕ Job → ℕ → Bool
waits objects id = elim (get id objects) [ none ↦ false | some job ↦ is_pending job.status ]

unfoldable pub start : Scheduler → Scheduler
start s = if s.is_running then s else record s { is_running = true }

unfoldable pub stop : Scheduler → Scheduler
stop s = if s.is_running then record s { is_running = false } else s

-- `_push`: the object is on the heap and registered.
unfoldable pub push : ℕ → Job → Scheduler → Scheduler
push id job s = record s {
  heap = heappush (entry id job) s.heap;
  objects = put id job s.objects;
  jobs = put id tt s.jobs;
}

unfoldable pub schedule :
    (id : ℕ) (name : String) (now : ℕ) (delay : ℤ) (every : Option ℤ) (priority : ℤ)
    → Scheduler
    → Scheduler
unfolding push
schedule id name now delay every priority s =
    push id
      (record {
        name = name;
        run_at = now + pos_part delay;
        interval = every;
        priority = priority;
        status = pending;
        error = none;
      })
      s

-- `self._jobs.values()`: every key of `_jobs` has its object.
abbrev pub registered : Dict ℕ Job → List ℕ → List Job
registered objects [] = []
registered objects (id ∷ ids) =
    let rest = registered objects ids in
    elim (get id objects) [ none ↦ rest | some job ↦ job ∷ rest ]

unfoldable pub list_jobs : Option JobStatus → Scheduler → List Job
list_jobs status s =
    let jobs = registered s.objects (keys s.jobs) in
    sort_by (λ a b. ltb a.run_at b.run_at)
      (elim status [ none ↦ jobs | some wanted ↦ keep (λ j. same_status j.status wanted) jobs ])

abbrev pub set_status : JobStatus → Job → Job
set_status status job = record job { status = status }

-- `self._jobs.get(job_id)`
unfoldable pub lookup : ℕ → Scheduler → Option Job
lookup id s = if has id s.jobs then get id s.objects else none

unfoldable pub cancel : ℕ → Scheduler → Scheduler × Bool
cancel id s = elim (lookup id s) [
  | none ↦ (s, false)
  | some job ↦
      if is_pending job.status
      then (record s { objects = put id (set_status cancelled job) s.objects }, true)
      else (s, false)
]

unfoldable pub remove : ℕ → Scheduler → Scheduler × Option Job
remove id s = (record s { jobs = pop id s.jobs }, lookup id s)

-- The inner loop of `_run_loop`: entries of jobs that no longer wait leave the heap and `_jobs`.
unfoldable pub drop_expired :
    Dict ℕ Job → List Entry → Dict ℕ (Unit {0}) → List Entry × Dict ℕ (Unit {0})
drop_expired objects [] jobs = ([], jobs)
drop_expired objects (e ∷ heap) jobs =
    let rest = drop_expired objects heap (pop e.id jobs) in
    if waits objects e.id then (e ∷ heap, jobs) else rest

unfoldable pub purge : Scheduler → Scheduler
unfolding drop_expired
purge s =
    let (heap, jobs) = drop_expired s.objects s.heap s.jobs in record s { heap = heap; jobs = jobs }

-- What the loop does after the purge.
pub data Wake : Type 0 where
  wait : ℕ → Wake
  execute : Wake

unfoldable pub plan : ℕ → List Entry → Wake
plan now [] = wait 500
plan now (e ∷ heap) = if ltb now e.run_at then wait (min (e.run_at - now) 500) else execute

unfoldable pub pop_top : List Entry → Scheduler → Scheduler × Option ℕ
pop_top [] s = (s, none)
pop_top (e ∷ heap) s = elim (get e.id s.objects) [
  | none ↦ (record s { heap = heap }, none)
  | some job ↦
      if is_pending job.status
      then (
        record s { heap = heap; objects = put e.id (set_status running job) s.objects },
        some e.id,
      )
      else (record s { heap = heap }, none)
]

-- `_execute` up to the call of the job's function, when no other thread comes between: the id of the job
-- that now runs.
unfoldable pub begin : Scheduler → Scheduler × Option ℕ
unfolding pop_top
begin s = pop_top s.heap s

abbrev pub outcome : Option String → Job → Job
outcome none job = set_status completed job
outcome (some e) job = record job { status = failed; error = some e }

-- The end of `_execute`: a periodic job waits again, any other keeps its outcome.
unfoldable pub settle : ℕ → ℕ → Option String → Job → Option ℕ → Scheduler → Scheduler
settle now id raised job none s = record s { objects = put id (outcome raised job) s.objects }
settle now id raised job (some n) s =
    push id (record job { run_at = now + n; status = pending; error = none }) s

-- `_execute` from the return of the job's function, or the exception that it raised.
unfoldable pub finish : ℕ → ℕ → Option String → Scheduler → Scheduler
unfolding settle
finish now id raised s = elim (get id s.objects) [
  | none ↦ s
  | some job ↦ settle now id raised job (period job) s
]

-- One round of `_run_loop` that no other thread comes into, up to the call of a job's function: the id of the job that now runs.
unfoldable pub round : ℕ → Scheduler → Scheduler × Option ℕ
round now s =
    if s.is_running
    then (let t = purge s in elim (plan now t.heap) [ wait _ ↦ (t, none) | execute ↦ begin t ])
    else (s, none)
