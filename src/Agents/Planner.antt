-- ===== src/Agents/Planner.antt =====
-- buster/agents/planner.py: the loop that asks for a step, calls its action and shows what came of it,
-- and what is learnt from a run. `decode` is `json.loads` with the reads of the step, `messages` the
-- conversation that the loop begins with. Times are numbers.
pub mod Known
pub mod Offline
mod Tests
use aioperator.Prelude.{
  ℕ, zero, suc, max, Bool, true, false, not, Option, none, some, List, [], ◌∷◌, ◌++◌, String, codes,
  if◌then◌else◌,
}
use aioperator.Prelude.Strings.{Text}
use aioperator.Memory.Experience.{store}
use aioperator.Memory.Reflection.{on_experience, text}
use aioperator.Agents.{
  AgentStatus, done, failed, value, Called, result, raised, AgentMemory, Host, Answer,
}
use aioperator.Agents.Replies.{
  AiMessage, assistant, user, Decoded, Parsed, stops, acts, fails, is_finished, parse_action,
  observation, ask,
}

pub data Entry : Type 0 where
  finished : Entry
  acted : String → Bool → Entry

pub record Run : Type 0 where
  pub status : AgentStatus
  pub error : Option String
  pub result : Option (List Entry)
  pub history : List Entry

-- The variables of the loop; `ended` says how it was left.
pub data Ended : Type 0 where
  by_itself : Ended
  by_exception : String → Ended

pub record Loop (K : Type 0) : Type 0 where
  pub transcript : List AiMessage
  pub history : List Entry
  pub executed : Bool
  pub kernel : K

abbrev pub begin : {K : Type 0} → List AiMessage → K → Loop K
begin messages k = record { transcript = messages; history = []; executed = false; kernel = k }

module _ {K P : Type 0} where
  module _ (host : Host K P) (decode : Text → Decoded P)
      (provider : Option (List AiMessage → Answer)) (goal : String) where
    -- What is behind a call: the loop goes on only if the call returned.
    abbrev pub observe : String → Called × K → Loop K → Option Ended × Loop K
    observe action (raised e, k) s = (some (by_exception e), record s { kernel = k })
    observe action (result r, k) s = (
      none,
      record s {
        history = s.history ++ acted action r.success ∷ [];
        transcript = s.transcript ++ user (observation r) ∷ [];
        kernel = k;
      },
    )

    abbrev pub act : Parsed P → Loop K → Option Ended × Loop K
    act stops s = (some by_itself, s)
    act (fails e) s = (some (by_exception e), s)
    act (acts action params) s =
        observe action (host.call action params s.kernel) (record s { executed = true })

    abbrev pub take_reply : Option Text → Loop K → Option Ended × Loop K
    unfolding is_finished parse_action
    take_reply none s = (some by_itself, s)
    take_reply (some reply) s =
        let heard = record s { transcript = s.transcript ++ assistant reply ∷ [] } in
        if is_finished reply
        then (some by_itself, record heard { history = s.history ++ finished ∷ [] })
        else act
            (parse_action decode (λ a. host.knows a s.kernel) reply (codes goal) (not s.executed))
            heard

    -- One turn of the loop of `run`.
    unfoldable pub turn : Loop K → Option Ended × Loop K
    unfolding ask
    turn s = take_reply (ask provider s.transcript (codes goal)) s

    abbrev pub go_on : (Loop K → Ended × Loop K) → Option Ended × Loop K → Ended × Loop K
    go_on next (none, s) = next s
    go_on next (some e, s) = (e, s)

    unfoldable pub turns : ℕ → Loop K → Ended × Loop K
    unfolding turn
    turns zero s = (by_itself, s)
    turns (suc n) s = go_on (turns n) (turn s)

    abbrev pub run_of : Ended → List Entry → Run
    run_of by_itself history = record {
      status = done;
      error = none;
      result = some history;
      history = history;
    }
    run_of (by_exception e) history = record {
      status = failed;
      error = some e;
      result = none;
      history = history;
    }

    -- `_learnt_from`
    abbrev pub remember : (now : ℕ) → Run → AgentMemory → AgentMemory
    unfolding store on_experience
    remember now r m = record m {
      experience =
          store
            (record {
              ts = now;
              status = some (value r.status);
              target = some (codes goal);
              error = elim r.error [ none ↦ none | some e ↦ some (codes e) ];
              agent = some "planner";
            })
            m.experience;
      knowledge =
          on_experience now m.hooks
            (record {
              status = some (value r.status);
              target = text goal;
              error = r.error;
              agent = some "planner";
            })
            m.knowledge;
    }

    abbrev pub learnt_from : (now : ℕ) → Run → Option AgentMemory → K → K
    learnt_from now r none k = k
    learnt_from now r (some m) k = host.set_memory (remember now r m) k

    -- The end of `run`.
    abbrev pub conclude : (now : ℕ) → Ended × Loop K → Run × K
    conclude now (e, s) =
        let r = run_of e s.history in (r, learnt_from now r (host.memory s.kernel) s.kernel)

    unfoldable pub run : (max_steps now : ℕ) → List AiMessage → K → Run × K
    unfolding turns
    run max_steps now messages k = conclude now (turns (max max_steps 1) (begin messages k))
