-- ===== src/Kernel/AgentManager.antt =====
-- buster/kernel/agent_manager.py: the agents, their statuses and the events of their lifecycle.
-- The event bus is outside: `emitted` lists what it was given. Metadata are of any type `V`.
pub mod Shutdown
mod Tests
use aioperator.Prelude.{
  ℕ, ◌≡◌, Bool, true, false, Option, none, some, List, [], ◌∷◌, ◌++◌, map, String, if◌then◌else◌,
  keep, ◌==◌,
}
use aioperator.Dict.{Dict, get as find, put, remove, values, string_eq}

pub data AgentStatus : Type 0 where
  spawning active stopped failed : AgentStatus

pub record AgentInfo (V : Type 0) : Type 0 where
  pub agent_id : String
  pub name : String
  pub status : AgentStatus
  pub meta : Dict String V

pub data AgentEvent : Type 0 where
  was_spawned : String → String → AgentEvent
  was_started was_stopped : String → AgentEvent
  has_failed : String → String → AgentEvent

pub record AgentManager (V : Type 0) : Type 0 where
  pub agents : Dict String (AgentInfo V)
  pub emitted : List AgentEvent

-- `none` is an `AgentNotFoundError`.
abbrev pub code_of : AgentStatus → ℕ
code_of spawning = 0
code_of active = 1
code_of stopped = 2
code_of failed = 3

abbrev pub is_live : AgentStatus → Bool
is_live spawning = true
is_live active = true
is_live _ = false

module _ {V : Type 0} where
  abbrev pub init : AgentManager V
  init = record { agents = []; emitted = [] }

  abbrev emit : AgentEvent → AgentManager V → AgentManager V
  emit e m = record m { emitted = m.emitted ++ e ∷ [] }

  unfoldable pub spawn : String → String → Dict String V → AgentManager V → AgentManager V
  spawn id name meta m = emit (was_spawned id name) (record m {
    agents =
        put id (record { agent_id = id; name = name; status = spawning; meta = meta }) m.agents;
  })

  unfoldable pub get : String → AgentManager V → Option (AgentInfo V)
  get id m = find id m.agents

  -- The object that `get` returns is the one in the table.
  abbrev set_agent : String → AgentInfo V → AgentManager V → AgentManager V
  set_agent id a m = record m { agents = put id a m.agents }

  unfoldable pub activate : String → AgentManager V → Option (AgentManager V)
  activate id m = elim (get id m) [
    | none ↦ none
    | some a ↦ some (emit (was_started id) (set_agent id (record a { status = active }) m))
  ]

  unfoldable pub stop : String → AgentManager V → Option (AgentManager V)
  stop id m = elim (get id m) [
    | none ↦ none
    | some a ↦ some (emit (was_stopped id) (set_agent id (record a { status = stopped }) m))
  ]

  -- `value` is the reason as a value of the metadata.
  unfoldable pub fail : (id reason : String) (value : V) → AgentManager V → Option (AgentManager V)
  fail id reason value m = elim (get id m) [
    | none ↦ none
    | some a ↦ some (
        emit (has_failed id reason)
          (set_agent id (record a { status = failed; meta = put "failure_reason" value a.meta }) m))
  ]

  unfoldable pub destroy : String → AgentManager V → AgentManager V
  destroy id m = record m { agents = remove id m.agents }

  unfoldable pub list_agents : Option AgentStatus → AgentManager V → List (AgentInfo V)
  list_agents status m = elim status [
    | none ↦ values m.agents
    | some wanted ↦ keep (λ a. code_of a.status == code_of wanted) (values m.agents)
  ]

  -- `stop` in a `try`: an exception is logged.
  unfoldable pub stop_or_log : String → AgentManager V → AgentManager V
  stop_or_log id m = elim (stop id m) [ none ↦ m | some m' ↦ m' ]

  unfoldable pub stop_each : List (AgentInfo V) → AgentManager V → AgentManager V
  stop_each [] m = m
  stop_each (a ∷ agents) m =
      stop_each agents (if is_live a.status then stop_or_log a.agent_id m else m)

  unfoldable pub shutdown_all : AgentManager V → AgentManager V
  shutdown_all m = stop_each (list_agents none m) m
