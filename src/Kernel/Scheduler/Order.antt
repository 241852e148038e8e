-- ===== src/Kernel/Scheduler/Order.antt =====
-- The heap is sorted, and every pending job is on it but for the one that the worker has in hand.
use aioperator.Prelude.{
  ℕ, ◌≡◌, ◌≢◌, ap, false, Option, none, some, List, [], ◌∷◌, String, arith, ◌==◌, ==_iff,
  Option-cases, Bool-cases, inl, inr,
}
use aioperator.Dict.{Dict, get, put, nat_eq, remove as pop}
use aioperator.Dict.Laws.{get-put}
use aioperator.Kernel.Scheduler.{
  Entry, Scheduler, Job, pending, cancelled, entry, waits, start, stop, push, schedule, cancel,
  remove, drop_expired, purge, settle, finish, lookup, outcome, set_status, period, is_pending,
}
use aioperator.Kernel.Scheduler.Heap.{
  In, IsSorted, In-heappush, In-heappush_self, IsSorted-heappush,
}
use aioperator.Kernel.Scheduler.Steps.{Step, starts, stops, schedules, cancels, removes, finishes}

module _ (held : Option ℕ) where
  -- Every pending job has its entry on the heap, but for the one that the worker took from it.
  abbrev pub Covers : List Entry → Dict ℕ Job → Type 0
  Covers heap objects =
      (id : ℕ) (job : Job)
      → get id objects ≡ some job
      → job.status ≡ pending
      → held ≢ some id
      → In (entry id job) heap

  -- A write to one object, with a heap that has lost at most entries of that object.
  Covers-put :
      (id' : ℕ) (job' : Job) (objects : Dict ℕ Job) (heap heap' : List Entry)
      → Covers heap objects
      → (job'.status ≡ pending → In (entry id' job') heap')
      → ((a : Entry) → a.id ≢ id' → In a heap → In a heap')
      → Covers heap' (put id' job' objects)
  Covers-put id' job' objects heap heap' c new old id job g p n = elim (Bool-cases (id' == id)) [
    | inl e ↦
        let same : id' ≡ id = (==_iff id' id).0 e in
        let got : job' ≡ job = ground (arith, get-put id' id job' objects) in
        rw (← same, ← got) (new (ground arith))
    | inr e ↦
        old (entry id job) (ground (arith, ==_iff id' id))
          (c id job (ground (arith, get-put id' id job' objects)) p n)
  ]

  pub record IsValid (s : Scheduler) : Type 0 where
    pub sorted : IsSorted s.heap
    pub covered : Covers s.heap s.objects

  push-IsValid : (id : ℕ) (job : Job) (s : Scheduler) → IsValid s → IsValid (push id job s)
  unfolding push
  push-IsValid id job s v = record {
    sorted = IsSorted-heappush (entry id job) s.heap v.sorted;
    covered =
        Covers-put id job s.objects s.heap _ v.covered (λ _. In-heappush_self (entry id job) s.heap)
          (λ a _ m. In-heappush (entry id job) a s.heap m);
  }

  -- A write that makes a job wait no longer.
  pub settled-IsValid :
      (id : ℕ) (job : Job) (s : Scheduler)
      → job.status ≢ pending
      → IsValid s
      → IsValid (record s { objects = put id job s.objects })
  settled-IsValid id job s n v = record {
    sorted = v.sorted;
    covered = Covers-put id job s.objects s.heap s.heap v.covered (λ p. absurd (n p)) (λ _ _ m. m);
  }

  cancel-IsValid : (id : ℕ) (s : Scheduler) → IsValid s → IsValid (cancel id s).0
  unfolding cancel
  cancel-IsValid id s v = elim (Option-cases (lookup id s)) [
    | inl e ↦ rw (e, cancel) v
    | inr (job, e) ↦ elim (Bool-cases (is_pending job.status)) [
      | inl p ↦ rw (e, p, cancel) (settled-IsValid id (set_status cancelled job) s (λ q. cc q) v)
      | inr p ↦ rw (e, p, cancel) v
    ]
  ]

  settle-IsValid :
      (now id : ℕ) (raised : Option String) (job : Job) (every : Option ℕ) (s : Scheduler)
      → IsValid s
      → IsValid (settle now id raised job every s)
  unfolding settle
  settle-IsValid now id none job none s v = settled-IsValid id (outcome none job) s (λ e. cc e) v
  settle-IsValid now id (some x) job none s v =
      settled-IsValid id (outcome (some x) job) s (λ e. cc e) v
  settle-IsValid now id raised job (some n) s v = push-IsValid id _ s v

  -- The top of the heap is gone, and its job does not wait.
  popped-Covers :
      (e : Entry) (heap : List Entry) (objects : Dict ℕ Job)
      → Covers (e ∷ heap) objects
      → waits objects e.id ≡ false
      → Covers heap objects
  popped-Covers e heap objects c w id job g p n = elim (c id job g p n) [
    | inl q ↦ absurd (ground (arith, ap (λ (x : Entry). x.id) q))
    | inr m ↦ m
  ]

  drop_expired-IsValid :
      (objects : Dict ℕ Job) (heap : List Entry) (jobs : Dict ℕ (Unit {0}))
      → IsSorted heap
      → Covers heap objects
      → IsSorted (drop_expired objects heap jobs).0
        × Covers (drop_expired objects heap jobs).0 objects
  unfolding drop_expired
  drop_expired-IsValid objects [] jobs s c = (s, c)
  drop_expired-IsValid objects (e ∷ heap) jobs s c = elim (Bool-cases (waits objects e.id)) [
    | inl w ↦ rw (w, drop_expired) (s, c)
    | inr w ↦
        rw (w, drop_expired)
          (drop_expired-IsValid objects heap (pop e.id jobs) s.1 (popped-Covers e heap objects c w))
  ]

  finish-IsValid :
      (now id : ℕ) (raised : Option String) (s : Scheduler)
      → IsValid s
      → IsValid (finish now id raised s)
  unfolding finish
  finish-IsValid now id raised s v = elim (Option-cases (get id s.objects)) [
    | inl q ↦ rw (q, finish) v
    | inr (job, q) ↦ rw (q, finish) (settle-IsValid now id raised job (period job) s v)
  ]

  pub purge-IsValid : (s : Scheduler) → IsValid s → IsValid (purge s)
  unfolding purge
  purge-IsValid s v =
      let r = drop_expired-IsValid s.objects s.heap s.jobs v.sorted v.covered in
      record { sorted = r.0; covered = r.1 }

  pub Step-IsValid : {s t : Scheduler} → Step s t → IsValid s → IsValid t
  unfolding start stop schedule remove
  Step-IsValid {s} starts v = elim (Bool-cases s.is_running) [
    | inl q ↦ rw (q, start) (record { sorted = v.sorted; covered = v.covered })
    | inr q ↦ rw (q, start) (record { sorted = v.sorted; covered = v.covered })
  ]
  Step-IsValid {s} stops v = elim (Bool-cases s.is_running) [
    | inl q ↦ rw (q, stop) (record { sorted = v.sorted; covered = v.covered })
    | inr q ↦ rw (q, stop) (record { sorted = v.sorted; covered = v.covered })
  ]
  Step-IsValid {s} (schedules id name now delay every priority fresh) v = push-IsValid id _ s v
  Step-IsValid {s} (cancels id) v = cancel-IsValid id s v
  Step-IsValid (removes id) v = record { sorted = v.sorted; covered = v.covered }
  Step-IsValid {s} (finishes now id raised r) v = finish-IsValid now id raised s v
