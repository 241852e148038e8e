-- ===== src/Kernel/Scheduler/Held.antt =====
-- The heap between the accesses of the worker: the one pending job that may be off it is the one that
-- the worker has in hand.
use aioperator.Kernel.Scheduler.Heap.{IsSorted}
use aioperator.Prelude.{
  ℕ, ◌≡◌, refl, ap, sym, false, Option, none, some, List, [], ◌∷◌, arith, Bool-cases, inl, inr,
  ==_iff,
}
use aioperator.Dict.{get, nat_eq}
use aioperator.Dict.Laws.{get-put}
use aioperator.Kernel.Scheduler.{Entry, Scheduler, Job, running, waits, init, set_status}
use aioperator.Kernel.Scheduler.Execute.{
  Hand, nothing, taken, checked, Worker, take_from, take_entry, check_hand, mark_job, mark, Turn,
  thread, purges, takes, checks, marks, Turns, still, turned,
}
use aioperator.Kernel.Scheduler.Heap.{IsSorted}
use aioperator.Kernel.Scheduler.Order.{
  Covers, IsValid, Step-IsValid, purge-IsValid, settled-IsValid,
}

abbrev pub held : Hand → Option ℕ
held nothing = none
held (taken id) = some id
held (checked id) = some id

-- The job in hand does not wait any more.
freed-IsValid :
    (id : ℕ) (s : Scheduler) → waits s.objects id ≡ false → IsValid (some id) s → IsValid none s
freed-IsValid id s w v = record {
  sorted = v.sorted;
  covered = λ id' job g p _. v.covered id' job g p (λ e. ground (arith, e));
}

take_from-IsValid :
    (heap : List Entry) (s : Scheduler)
    → s.heap ≡ heap
    → IsSorted heap
    → Covers none heap s.objects
    → IsValid (held (take_from heap s).hand) (take_from heap s).scheduler
take_from-IsValid [] s q so c = record { sorted = rw q so; covered = rw q c }
take_from-IsValid (e ∷ heap) s q so c = record {
  sorted = so.1;
  covered = λ id job g p n. elim (c id job g p (λ r. cc r)) [
    | inl r ↦ absurd (n (ap some (sym (ap (λ (x : Entry). x.id) r))))
    | inr m ↦ m
  ];
}

check_hand-IsValid :
    (id : ℕ) (s : Scheduler)
    → IsValid (some id) s
    → IsValid (held (check_hand id s).hand) (check_hand id s).scheduler
unfolding check_hand
check_hand-IsValid id s v = elim (Bool-cases (waits s.objects id)) [
  | inl w ↦ rw w v
  | inr w ↦ rw w (freed-IsValid id s w v)
]

mark_job-IsValid :
    (id : ℕ) (found : Option Job) (s : Scheduler)
    → get id s.objects ≡ found
    → IsValid (some id) s
    → IsValid none (mark_job id found s)
mark_job-IsValid id none s q v = freed-IsValid id s (ground arith) v
mark_job-IsValid id (some job) s q v =
    let job' = set_status running job in
    freed-IsValid id _ (ground (arith, get-put id id job' s.objects, ==_iff id id))
      (settled-IsValid (some id) id job' s (λ e. cc e) v)

Turn-IsValid :
    {w v : Worker}
    → Turn w v
    → IsValid (held w.hand) w.scheduler
    → IsValid (held v.hand) v.scheduler
unfolding take_entry mark
Turn-IsValid (thread {hand = hand} st) v = Step-IsValid (held hand) st v
Turn-IsValid (purges s) v = purge-IsValid none s v
Turn-IsValid (takes s) v = take_from-IsValid s.heap s refl v.sorted v.covered
Turn-IsValid (checks id s) v = check_hand-IsValid id s v
Turn-IsValid (marks id s) v = mark_job-IsValid id (get id s.objects) s refl v

init-IsValid : IsValid none init
unfolding get
init-IsValid = record { sorted = tt; covered = λ id job g p _. absurd (cc g) }

abbrev pub new_worker : Worker
new_worker = record { scheduler = init; hand = nothing }

-- However the accesses of the worker and the calls of other threads are mixed, the heap is sorted, and
-- every pending job is on it that the worker does not have in hand.
pub Turns-IsValid : {w : Worker} → Turns new_worker w → IsValid (held w.hand) w.scheduler
Turns-IsValid still = init-IsValid
Turns-IsValid (turned r st) = Turn-IsValid st (Turns-IsValid r)
