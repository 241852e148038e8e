-- ===== src/Kernel/Scheduler/Rounds.antt =====
-- A round of the worker: the job that it begins, that it begins one when one is due, and what
-- `remove` has to do with either.
use aioperator.Prelude.{
  ℕ, ◌≤◌, ◌≡◌, refl, true, false, Option, none, some, List, [], ◌∷◌, arith, Bool-cases, inl, inr,
  ◌⊎◌, ◌+◌, String, ==_iff,
}
use aioperator.Dict.{Dict, get, nat_eq, remove as pop}
use aioperator.Dict.Laws.{get-put}
use aioperator.Kernel.Scheduler.{
  Entry, Scheduler, Job, pending, entry, waits, remove, drop_expired, purge, plan, wait, execute,
  begin, pop_top, less, round, Wake, finish, settle, push, running, period,
}
use aioperator.Kernel.Scheduler.Heap.{In, IsSorted, top-le}
use aioperator.Kernel.Scheduler.Steps.{finishes}
use aioperator.Kernel.Scheduler.Execute.{Worker, nothing, Turns, turned, thread}
use aioperator.Kernel.Scheduler.Held.{new_worker, Turns-IsValid}
use aioperator.Kernel.Scheduler.Order.{Covers, IsValid, purge-IsValid}

-- The worker at the start of a round.
abbrev pub idle : Scheduler → Worker
idle s = record { scheduler = s; hand = nothing }

-- What a round promises about the job that it begins.
pub record IsLeastDue (now id : ℕ) (s : Scheduler) : Type 0 where
  pub place : Entry
  pub id_place : place.id ≡ id
  pub on_heap : In place s.heap
  pub due : place.run_at ≤ now
  pub least :
      (other : ℕ) (job : Job)
      → get other s.objects ≡ some job
      → job.status ≡ pending
      → less (entry other job) place ≡ false

drop_expired-In :
    (objects : Dict ℕ Job) (heap : List Entry) (jobs : Dict ℕ (Unit {0})) (a : Entry)
    → In a (drop_expired objects heap jobs).0
    → In a heap
unfolding drop_expired
drop_expired-In objects [] jobs a m = m
drop_expired-In objects (e ∷ heap) jobs a m = elim (Bool-cases (waits objects e.id)) [
  | inl w ↦ rw (w, drop_expired) at m
  | inr w ↦ inr (drop_expired-In objects heap (pop e.id jobs) a (rw (w, drop_expired) at m))
]

Wake-cases : (w : Wake) → ((n : ℕ) × (w ≡ wait n)) ⊎ (w ≡ execute)
Wake-cases (wait n) = inl (n, refl)
Wake-cases execute = inr refl

pop_top_least :
    (now id : ℕ) (heap : List Entry) (t : Scheduler)
    → t.heap ≡ heap
    → IsSorted heap
    → Covers none heap t.objects
    → plan now heap ≡ execute
    → (pop_top heap t).1 ≡ some id
    → IsLeastDue now id t
unfolding pop_top plan
pop_top_least now id [] t q so c p h = absurd (cc p)
pop_top_least now id (e ∷ heap) t q so c p h = record {
  place = e;
  id_place = ground arith;
  on_heap = rw q (inl refl);
  due = ground arith;
  least = λ other job g w. top-le e (entry other job) heap so (c other job g w (λ r. cc r));
}

module _ (now : ℕ) (s : Scheduler) where
  purged_least : (id : ℕ) → IsLeastDue now id (purge s) → IsLeastDue now id s
  unfolding purge
  purged_least id l = record {
    place = l.place;
    id_place = l.id_place;
    on_heap = drop_expired-In s.objects s.heap s.jobs l.place l.on_heap;
    due = l.due;
    least = l.least;
  }

  round_least_of_valid : (id : ℕ) → IsValid none s → (round now s).1 ≡ some id → IsLeastDue now id s
  unfolding round begin
  round_least_of_valid id v h = elim (Bool-cases s.is_running) [
    | inr q ↦ absurd (ground arith)
    | inl q ↦
        let t = purge s in
        let w : IsValid none t = purge-IsValid none s v in
        elim (Wake-cases (plan now t.heap)) [
          | inl (n, p) ↦ absurd (ground arith)
          | inr p ↦
              purged_least id
                (pop_top_least now id t.heap t refl w.sorted w.covered p (ground arith))
        ]
  ]

-- However the accesses of the worker and the calls of other threads were mixed before, a round that
-- begins a job, and that no other thread comes into, begins one whose entry is on the heap and due, and
-- no pending job precedes that entry in the order of time, priority and id.
pub round_least :
    (now id : ℕ) {s : Scheduler}
    → Turns new_worker (idle s)
    → (round now s).1 ≡ some id
    → IsLeastDue now id s
round_least now id {s} r h = round_least_of_valid now s id (Turns-IsValid r) h

-- Behind the purge the job at the top of the heap waits.
abbrev TopWaits : Dict ℕ Job → List Entry → Type 0
TopWaits objects [] = Unit
TopWaits objects (e ∷ heap) = waits objects e.id ≡ true

drop_expired-TopWaits :
    (objects : Dict ℕ Job) (heap : List Entry) (jobs : Dict ℕ (Unit {0}))
    → TopWaits objects (drop_expired objects heap jobs).0
unfolding drop_expired
drop_expired-TopWaits objects [] jobs = tt
drop_expired-TopWaits objects (e ∷ heap) jobs = elim (Bool-cases (waits objects e.id)) [
  | inl w ↦ rw (w, drop_expired) w
  | inr w ↦ rw (w, drop_expired) (drop_expired-TopWaits objects heap (pop e.id jobs))
]

run_at-le : (a b : Entry) → less b a ≡ false → a.run_at ≤ b.run_at
unfolding less
run_at-le a b h = ground arith

pop_top_progress :
    (now other : ℕ) (job : Job) (heap : List Entry) (t : Scheduler)
    → IsSorted heap
    → Covers none heap t.objects
    → TopWaits t.objects heap
    → get other t.objects ≡ some job
    → job.status ≡ pending
    → job.run_at ≤ now
    → (id : ℕ) × (plan now heap ≡ execute) × ((pop_top heap t).1 ≡ some id)
unfolding pop_top plan
pop_top_progress now other job [] t so c w g p d = absurd (c other job g p (λ r. cc r))
pop_top_progress now other job (e ∷ heap) t so c w g p d =
    let le =
      run_at-le e (entry other job)
        (top-le e (entry other job) heap so (c other job g p (λ r. cc r))) in
    (e.id, ground arith, ground arith)

-- However the accesses of the worker and the calls of other threads were mixed before: if the worker
-- runs and some job is pending and due, the next round begins a job, unless another thread comes into
-- that round.
pub round_progress :
    (now other : ℕ) (job : Job) {s : Scheduler}
    → Turns new_worker (idle s)
    → s.is_running ≡ true
    → get other s.objects ≡ some job
    → job.status ≡ pending
    → job.run_at ≤ now
    → (id : ℕ) × ((round now s).1 ≡ some id)
unfolding round begin purge
round_progress now other job {s} r q g p d =
    let w : IsValid none (purge s) = purge-IsValid none s (Turns-IsValid r) in
    let (id, planned, popped) =
      pop_top_progress now other job (purge s).heap (purge s) w.sorted w.covered
        (drop_expired-TopWaits s.objects s.heap s.jobs) g p d in
    (id, ground arith)

drop_expired_jobs :
    (objects : Dict ℕ Job) (heap : List Entry) (jobs jobs' : Dict ℕ (Unit {0}))
    → (drop_expired objects heap jobs).0 ≡ (drop_expired objects heap jobs').0
unfolding drop_expired
drop_expired_jobs objects [] jobs jobs' = refl
drop_expired_jobs objects (e ∷ heap) jobs jobs' =
    ground (arith, drop_expired_jobs objects heap (pop e.id jobs) (pop e.id jobs'))

pop_top_objects :
    (heap : List Entry) (t u : Scheduler)
    → t.objects ≡ u.objects
    → (pop_top heap t).1 ≡ (pop_top heap u).1
unfolding pop_top
pop_top_objects [] t u h = refl
pop_top_objects (e ∷ heap) t u h = ground arith

plan_pop_top :
    (now : ℕ) (h h' : List Entry) (t u : Scheduler)
    → h ≡ h'
    → t.objects ≡ u.objects
    → t.heap ≡ h
    → u.heap ≡ h'
    → (elim (plan now h) as (λ _. Scheduler × Option ℕ) [
      | wait _ ↦ (t, none)
      | execute ↦ begin t
    ]).1
      ≡ (elim (plan now h') as (λ _. Scheduler × Option ℕ) [
        | wait _ ↦ (u, none)
        | execute ↦ begin u
      ]).1
unfolding begin
plan_pop_top now h h' t u p q a b = ground (arith, pop_top_objects h t u)

-- `remove` takes a job off the list of jobs and no more: a round begins the same job as if the
-- job had not been removed, the removed job included.
pub round-remove : (now id : ℕ) (s : Scheduler) → (round now (remove id s).0).1 ≡ (round now s).1
unfolding round remove purge
round-remove now id s = elim (Bool-cases s.is_running) [
  | inr q ↦ ground arith
  | inl q ↦ ground (
    arith,
    plan_pop_top now _ _ (purge (remove id s).0) (purge s)
        (drop_expired_jobs s.objects s.heap (pop id s.jobs) s.jobs) refl refl refl,
  )
]

-- When a periodic job ends, with or without an exception, and the worker runs, then in every round
-- from its period later on some job is begun, as long as nothing else happens before.
pub periodic_runs_again :
    (now later id n : ℕ) (raised : Option String) (job : Job) {s : Scheduler}
    → Turns new_worker (idle s)
    → s.is_running ≡ true
    → get id s.objects ≡ some job
    → job.status ≡ running
    → period job ≡ some n
    → now + n ≤ later
    → (id' : ℕ) × ((round later (finish now id raised s)).1 ≡ some id')
unfolding finish settle push
periodic_runs_again now later id n raised job {s} r q g p e le =
    let job' : Job = record job { run_at = now + n; status = pending; error = none } in
    round_progress later id job' (turned r (thread (finishes now id raised (ground arith))))
      (ground arith) (ground (arith, get-put id id job' s.objects, ==_iff id id)) refl le
