-- ===== src/Kernel/Scheduler/Execute.antt =====
-- The worker's loop and its `_execute` access by access, mixed with the calls of other threads.
use aioperator.Prelude.{
  ℕ, ◌≡◌, refl, Bool, false, Bool-cases, Option-cases, inl, inr, Option, none, some, List, [], ◌∷◌,
  if◌then◌else◌, ◌∙◌, ap,
}
use aioperator.Dict.{get, put, nat_eq}
use aioperator.Kernel.Scheduler.{
  Entry, Scheduler, Job, running, is_pending, waits, set_status, begin, pop_top, purge,
}
use aioperator.Kernel.Scheduler.Steps.{Step}

-- What the worker has in hand: nothing, a job that it took from the heap, or one that it took and found
-- pending, so that it writes RUNNING next and then calls the function of the job.
pub data Hand : Type 0 where
  nothing : Hand
  taken : ℕ → Hand
  checked : ℕ → Hand

pub record Worker : Type 0 where
  pub scheduler : Scheduler
  pub hand : Hand

-- The part of `_execute` under the lock.
abbrev pub take_from : List Entry → Scheduler → Worker
take_from [] s = record { scheduler = s; hand = nothing }
take_from (e ∷ heap) s = record { scheduler = record s { heap = heap }; hand = taken e.id }

unfoldable pub take_entry : Scheduler → Worker
take_entry s = take_from s.heap s

-- `if job.status is not JobStatus.PENDING: return`
unfoldable pub check_hand : ℕ → Scheduler → Worker
check_hand id s = record {
  scheduler = s;
  hand = if waits s.objects id then checked id else nothing;
}

-- `job.status = JobStatus.RUNNING`
abbrev pub mark_job : ℕ → Option Job → Scheduler → Scheduler
mark_job id none s = s
mark_job id (some job) s = record s { objects = put id (set_status running job) s.objects }

unfoldable pub mark : ℕ → Scheduler → Scheduler
mark id s = mark_job id (get id s.objects) s

-- One access of the worker, or one call of another thread or of a function that runs.
pub data Turn : Worker → Worker → Type 0 where
  thread :
      {s t : Scheduler} {hand : Hand}
      → Step s t
      → Turn (record { scheduler = s; hand = hand }) (record { scheduler = t; hand = hand })
  purges :
      (s : Scheduler)
      → Turn
          (record { scheduler = s; hand = nothing })
          (record { scheduler = purge s; hand = nothing })
  takes : (s : Scheduler) → Turn (record { scheduler = s; hand = nothing }) (take_entry s)
  checks :
      (id : ℕ) (s : Scheduler) → Turn (record { scheduler = s; hand = taken id }) (check_hand id s)
  marks :
      (id : ℕ) (s : Scheduler)
      → Turn
          (record { scheduler = s; hand = checked id })
          (record { scheduler = mark id s; hand = nothing })

pub data Turns (w : Worker) : Worker → Type 0 where
  still : Turns w w
  turned : {v u : Worker} → Turns w v → Turn v u → Turns w u

-- The accesses behind the first, where no other thread comes between.
abbrev pub check_next : Hand → Scheduler → Worker
unfolding check_hand
check_next nothing s = record { scheduler = s; hand = nothing }
check_next (taken id) s = check_hand id s
check_next (checked id) s = record { scheduler = s; hand = checked id }

abbrev pub mark_next : Hand → Scheduler → Scheduler × Option ℕ
unfolding mark
mark_next nothing s = (s, none)
mark_next (taken id) s = (s, none)
mark_next (checked id) s = (mark id s, some id)

-- The three accesses in a row.
abbrev pub undisturbed : Scheduler → Scheduler × Option ℕ
unfolding take_entry
undisturbed s =
    let w = take_entry s in let v = check_next w.hand w.scheduler in mark_next v.hand v.scheduler

mark_lem :
    (id : ℕ) (job : Job) (s : Scheduler)
    → get id s.objects ≡ some job
    → mark id s ≡ record s { objects = put id (set_status running job) s.objects }
unfolding mark
mark_lem id job s q = ap (λ f. mark_job id f s) q

abbrev in_hand : ℕ → Scheduler → Bool → Scheduler × Option ℕ
unfolding mark_next
in_hand id s b = mark_next (if b then checked id else nothing) s

abbrev waits_of : Option Job → Bool
waits_of found = elim found [ none ↦ false | some job ↦ is_pending job.status ]

begin_top :
    (heap : List Entry) (s : Scheduler)
    → (let w = take_from heap s in
        let v = check_next w.hand w.scheduler in mark_next v.hand v.scheduler)
      ≡ pop_top heap s
unfolding check_next check_hand pop_top mark_next in_hand
begin_top [] s = refl
begin_top (e ∷ heap) s =
    let t = record s { heap = heap } in
    elim (Option-cases (get e.id s.objects)) [
      | inl q ↦ ap (in_hand e.id t) (ap waits_of q) ∙ rw (q, pop_top) refl
      | inr (job, q) ↦ elim (Bool-cases (is_pending job.status)) [
        | inl p ↦
            ap (in_hand e.id t) (ap waits_of q ∙ p)
            ∙ ap (λ u. (u, some e.id)) (mark_lem e.id job t q)
            ∙ rw (q, p, pop_top) refl
        | inr p ↦ ap (in_hand e.id t) (ap waits_of q ∙ p) ∙ rw (q, p, pop_top) refl
      ]
    ]

-- When nothing comes between them, the three accesses are `begin`.
pub begin_lem : (s : Scheduler) → undisturbed s ≡ begin s
unfolding begin take_entry undisturbed
begin_lem s = begin_top s.heap s
