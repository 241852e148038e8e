-- ===== src/Agents/Orchestrator.antt =====
-- buster/agents/orchestration.py: a plan that a provider answers with, and the calls of its actions.
-- `decode` is `json.loads` with the reads of the rows; `prompt` is the conversation of `_plan`, and
-- `attached` says that the agent has a kernel. Times are numbers.
pub mod Planned
mod Tests
use aioperator.Prelude.{
  ℕ, ◌-◌, Bool, true, false, ◌&&◌, ◌⊎◌, inl, inr, Option, none, some, List, [], ◌∷◌, ◌++◌, String,
  codes, fstring, if◌then◌else◌, leb, take, drop, length,
}
use aioperator.Prelude.Strings.{Text, strip, has_prefix, same_text}
use aioperator.Memory.Experience.{store}
use aioperator.Agents.{
  AgentStatus, done, failed, value, Called, ActionResult, result, raised, AgentMemory, Host, Answer,
  content,
}

pub record PlanAction (P : Type 0) : Type 0 where
  pub action : String
  pub params : P
  pub reason : String

-- A row of the answer: one whose reads raise, or its action, where that is a text, its parameters and
-- its reason.
pub data Row (P : Type 0) : Type 0 where
  odd : String → Row P
  row : Option String → P → String → Row P

pub data Rows (P : Type 0) : Type 0 where
  unreadable : Rows P
  no_list : String → Rows P
  rows : List (Row P) → Rows P

abbrev pub removeprefix : Text → Text → Text
removeprefix p s = if has_prefix p s then drop (length p) s else s

abbrev pub removesuffix : Text → Text → Text
unfolding same_text
removesuffix p s =
    if leb (length p) (length s) && same_text (drop (length s - length p) s) p
    then take (length s - length p) s
    else s

-- `cleaned`
unfoldable pub cleaned : Text → Text
unfolding removesuffix
cleaned s = strip (
    removesuffix (codes "```")
      (removeprefix (codes "```") (removeprefix (codes "```json") (strip s))))

pub data Entry (P : Type 0) : Type 0 where
  planned : List (PlanAction P) → Entry P
  step : String → Bool → Entry P

pub record Executed : Type 0 where
  pub action : String
  pub outcome : ActionResult

pub record Run (P : Type 0) : Type 0 where
  pub status : AgentStatus
  pub error : Option String
  pub result : Option (List (PlanAction P) × List Executed)
  pub history : List (Entry P)

abbrev pub max_steps : ℕ
max_steps = 10

module _ {P : Type 0} where
  -- The plan of one safe action; `no_params` is the empty dictionary.
  abbrev pub fallback : P → String → List (PlanAction P)
  fallback no_params reason =
      record { action = "android.info"; params = no_params; reason = reason } ∷ []

  -- A row in front of the plan that is made of the rows behind it.
  abbrev pub keep_known :
      (String → Bool) → Option String → P → String → List (PlanAction P) → List (PlanAction P)
  keep_known knows none params reason plan = plan
  keep_known knows (some action) params reason plan =
      if knows action
      then record { action = action; params = params; reason = reason } ∷ plan
      else plan

  abbrev pub with_row :
      (String → Bool) → Row P → String ⊎ List (PlanAction P) → String ⊎ List (PlanAction P)
  with_row knows (odd e) plan = inl e
  with_row knows (row action params reason) (inl e) = inl e
  with_row knows (row action params reason) (inr plan) =
      inr (keep_known knows action params reason plan)

  -- The loop of `_parse_plan`.
  unfoldable pub plan_rows : (String → Bool) → List (Row P) → String ⊎ List (PlanAction P)
  plan_rows knows [] = inr []
  plan_rows knows (r ∷ rs) = with_row knows r (plan_rows knows rs)

  -- `plan or [...]`, whose text is no f-string.
  abbrev pub or_fallback : P → String ⊎ List (PlanAction P) → String ⊎ List (PlanAction P)
  or_fallback no_params (inl e) = inl e
  or_fallback no_params (inr []) = inr (fallback no_params "fallback for '{goal}'")
  or_fallback no_params (inr (a ∷ plan)) = inr (a ∷ plan)

  -- `_parse_plan`
  unfoldable pub parse_plan :
      P → (String → Bool) → (goal : String) → Rows P → String ⊎ List (PlanAction P)
  unfolding plan_rows
  parse_plan no_params knows goal unreadable =
      inr (fallback no_params (fstring ("fallback for '" ∷ goal ∷ "'" ∷ [])))
  parse_plan no_params knows goal (no_list e) = inl e
  parse_plan no_params knows goal (rows rs) = or_fallback no_params (plan_rows knows rs)

  -- A provider's answer with no content has no `strip`.
  abbrev pub plan_of :
      P → (String → Bool) → (Text → Rows P) → String → Answer → String ⊎ List (PlanAction P)
  unfolding parse_plan cleaned
  plan_of no_params knows decode goal (raised e) = inl e
  plan_of no_params knows decode goal (content none) =
      inl "'NoneType' object has no attribute 'strip'"
  plan_of no_params knows decode goal (content (some t)) =
      parse_plan no_params knows goal (decode (cleaned t))

  -- `_plan`
  unfoldable pub make_plan :
      P → (String → Bool) → (Text → Rows P) → String → Option Answer → String ⊎ List (PlanAction P)
  unfolding plan_of
  make_plan no_params knows decode goal none =
      inr (fallback no_params "introspect device to ground the goal")
  make_plan no_params knows decode goal (some answer) = plan_of no_params knows decode goal answer

module _ {K P : Type 0} (host : Host K P) where
  -- What the loop over the steps leaves: the error that ended it, the results, and the kernel.
  abbrev pub with_result :
      String
      → ActionResult
      → Option String × (List Executed × K)
      → Option String × (List Executed × K)
  with_result action r (e, (executed, k)) =
      (e, (record { action = action; outcome = r } ∷ executed, k))

  abbrev pub execute_one :
      (K → Option String × (List Executed × K))
      → String
      → Called × K
      → Option String × (List Executed × K)
  execute_one next action (raised e, k) = (some e, ([], k))
  execute_one next action (result r, k) = with_result action r (next k)

  unfoldable pub execute : List (PlanAction P) → K → Option String × (List Executed × K)
  execute [] k = (none, ([], k))
  execute (s ∷ steps) k = execute_one (execute steps) s.action (host.call s.action s.params k)

  abbrev pub steps_of : List Executed → List (Entry P)
  steps_of [] = []
  steps_of (x ∷ xs) = step x.action x.outcome.success ∷ steps_of xs

  abbrev pub ended : List (PlanAction P) → Option String × (List Executed × K) → Run P × K
  ended plan (none, (executed, after)) = (
    record {
      status = done;
      error = none;
      result = some (plan, executed);
      history = planned plan ∷ steps_of executed;
    },
    after,
  )
  ended plan (some e, (executed, after)) = (
    record {
      status = failed;
      error = some e;
      result = none;
      history = planned plan ∷ steps_of executed;
    },
    after,
  )

  abbrev pub run_plan : (attached : Bool) → String ⊎ List (PlanAction P) → K → Run P × K
  unfolding execute
  run_plan attached (inl e) k =
      (record { status = failed; error = some e; result = none; history = [] }, k)
  run_plan attached (inr plan) k =
      ended plan (if attached then execute (take max_steps plan) k else (none, ([], k)))

  -- `_record_experience`
  abbrev pub remember : (now : ℕ) → String → Run P → AgentMemory → AgentMemory
  unfolding store
  remember now goal r m = record m {
    experience =
        store
          (record {
            ts = now;
            status = some (value r.status);
            target = some (codes goal);
            error = elim r.error [ none ↦ none | some e ↦ some (codes e) ];
            agent = none;
          })
          m.experience;
  }

  abbrev pub record_experience : (now : ℕ) → String → Run P → Option AgentMemory → K → K
  record_experience now goal r none k = k
  record_experience now goal r (some m) k = host.set_memory (remember now goal r m) k

  -- `run`
  unfoldable pub run :
      (attached : Bool)
      → P
      → (Text → Rows P)
      → Option Answer
      → (goal : String) (now : ℕ) → K
      → Run P × K
  unfolding make_plan run_plan
  run attached no_params decode answer goal now k =
      let (r, after) =
        run_plan attached (make_plan no_params (λ a. host.knows a k) decode goal answer) k in
      (r, record_experience now goal r (host.memory after) after)
