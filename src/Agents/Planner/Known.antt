-- ===== src/Agents/Planner/Known.antt =====
-- buster/agents/planner.py: what a run does to the kernel, and how many steps it takes.
use aioperator.Prelude.{
  ℕ, zero, suc, ◌≡◌, max, Bool, true, false, not, Bool-cases, inl, inr, Option, none, some, List,
  [], ◌∷◌, ◌++◌, String, codes, if◌then◌else◌,
}
use aioperator.Prelude.Strings.{Text}
use aioperator.Agents.{Called, result, raised, AgentMemory, Host, Answer}
use aioperator.Agents.Replies.{
  AiMessage, assistant, Decoded, unreadable, unhashable, object, Parsed, stops, acts, fails,
  step_of, or_else, own_step, search, fallback_plan_step, is_finished, parse_action, ask,
}
use aioperator.Agents.Planner.{
  Run, Ended, Loop, begin, observe, act, take_reply, turn, go_on, turns, run_of, remember,
  learnt_from, run,
}

module _ {P : Type 0} (knows : String → Bool) where
  -- A step whose action is known, if there is one.
  abbrev IsKnown : Parsed P → Type 0
  IsKnown stops = Unit
  IsKnown (acts action params) = knows action ≡ true
  IsKnown (fails e) = Unit

  step_of-IsKnown : (d : Decoded P) → IsKnown (step_of knows d)
  step_of-IsKnown unreadable = tt
  step_of-IsKnown (unhashable e) = tt
  step_of-IsKnown (object none params) = tt
  step_of-IsKnown (object (some action) params) = elim (Bool-cases (knows action)) [
    | inl h ↦ rw h h
    | inr h ↦ rw h tt
  ]

  own_step-IsKnown :
      (decode : Text → Decoded P) (t : Option Text) → IsKnown (own_step decode knows t)
  own_step-IsKnown decode none = tt
  own_step-IsKnown decode (some t) = step_of-IsKnown (decode t)

  or_else-IsKnown : (a b : Parsed P) → IsKnown a → IsKnown b → IsKnown (or_else a b)
  or_else-IsKnown stops b u v = v
  or_else-IsKnown (acts action params) b u v = u
  or_else-IsKnown (fails e) b u v = u

  parse_action-IsKnown :
      (decode : Text → Decoded P) (reply goal : Text) (bootstrap : Bool)
      → IsKnown (parse_action decode knows reply goal bootstrap)
  unfolding parse_action
  parse_action-IsKnown decode reply goal bootstrap =
      or_else-IsKnown (own_step decode knows (search reply))
        (if bootstrap
          then own_step decode knows (search (codes (fallback_plan_step goal)))
          else stops)
        (own_step-IsKnown decode (search reply))
        (elim bootstrap
          as (λ b. IsKnown (
            if b
            then own_step decode knows (search (codes (fallback_plan_step goal)))
            else stops)) [
              | true ↦ own_step-IsKnown decode (search (codes (fallback_plan_step goal)))
              | false ↦ tt
            ])

module _ {K P : Type 0} (host : Host K P) (decode : Text → Decoded P)
    (provider : Option (List AiMessage → Answer)) (goal : String) (Holds : K → Type 0)
    (calls : (action : String) (params : P) (k : K)
      → host.knows action k ≡ true
      → Holds k
      → Holds (host.call action params k).1)
    (stores : (m : AgentMemory) (k : K) → Holds k → Holds (host.set_memory m k)) where
  observe-Holds :
      (action : String) (c : Called × K) (s : Loop K)
      → Holds c.1
      → Holds (observe host decode provider goal action c s).1.kernel
  observe-Holds action (raised e, k) s v = v
  observe-Holds action (result r, k) s v = v

  act-Holds :
      (p : Parsed P) (s : Loop K)
      → IsKnown (λ a. host.knows a s.kernel) p
      → Holds s.kernel
      → Holds (act host decode provider goal p s).1.kernel
  act-Holds stops s h v = v
  act-Holds (fails e) s h v = v
  act-Holds (acts action params) s h v =
      observe-Holds action (host.call action params s.kernel) (record s { executed = true })
        (calls action params s.kernel h v)

  take_reply-Holds :
      (reply : Option Text) (s : Loop K)
      → Holds s.kernel
      → Holds (take_reply host decode provider goal reply s).1.kernel
  unfolding take_reply
  take_reply-Holds none s v = v
  take_reply-Holds (some reply) s v = elim (Bool-cases (is_finished reply)) [
    | inl h ↦ rw h v
    | inr h ↦ rw h (
        act-Holds
          (parse_action decode (λ a. host.knows a s.kernel) reply (codes goal) (not s.executed))
          (record s { transcript = s.transcript ++ assistant reply ∷ [] })
          (parse_action-IsKnown (λ a. host.knows a s.kernel) decode reply (codes goal)
            (not s.executed))
          v)
  ]

  go_on-Holds :
      (next : Loop K → Ended × Loop K) (t : Option Ended × Loop K)
      → ((s : Loop K) → Holds s.kernel → Holds (next s).1.kernel)
      → Holds t.1.kernel
      → Holds (go_on host decode provider goal next t).1.kernel
  go_on-Holds next (none, s) h v = h s v
  go_on-Holds next (some e, s) h v = v

  turns-Holds :
      (n : ℕ) (s : Loop K) → Holds s.kernel → Holds (turns host decode provider goal n s).1.kernel
  unfolding turns turn
  turns-Holds zero s v = v
  turns-Holds (suc n) s v =
      go_on-Holds (turns host decode provider goal n) (turn host decode provider goal s)
        (turns-Holds n) (take_reply-Holds (ask provider s.transcript (codes goal)) s v)

  learnt_from-Holds :
      (now : ℕ) (r : Run) (m : Option AgentMemory) (k : K)
      → Holds k
      → Holds (learnt_from host decode provider goal now r m k)
  learnt_from-Holds now r none k v = v
  learnt_from-Holds now r (some m) k v = stores (remember host decode provider goal now r m) k v

  -- A run reaches the kernel only by calls of actions that the registry knows when they are called and
  -- by writing its memory: what all such calls and writes keep still holds behind the run, whatever the
  -- provider answers, and also when the run fails.
  pub run-Holds :
      (max_steps now : ℕ) (messages : List AiMessage) (k : K)
      → Holds k
      → Holds (run host decode provider goal max_steps now messages k).1
  unfolding run
  run-Holds max_steps now messages k v =
      let (e, s) = turns host decode provider goal (max max_steps 1) (begin messages k) in
      let r = run_of host decode provider goal e s.history in
      learnt_from-Holds now r (host.memory s.kernel) s.kernel
        (turns-Holds (max max_steps 1) (begin messages k) v)
