-- ===== src/Agents.antt =====
-- buster/agents: what an agent finds in the kernel, and how it records a run. `K` is the kernel and `P`
-- the parameters of an action. An agent that has no kernel is one whose host knows every action, raises
-- at each call and has no memory.
pub mod Replies
pub mod Planner
pub mod Orchestrator
use aioperator.Prelude.{ℕ, Bool, true, Option, none, some, List, String, codes}
use aioperator.Prelude.Strings.{Text}
use aioperator.Memory.Experience.{ExperienceMemory, Experience, store}
use aioperator.Memory.Knowledge.{KnowledgeMemory}
use aioperator.Memory.Reflection.{Hook, on_experience}

pub data AgentStatus : Type 0 where
  created running done failed : AgentStatus

abbrev pub value : AgentStatus → String
value created = "created"
value running = "running"
value done = "done"
value failed = "failed"

-- The success of a call and `json.dumps` of what it gives.
pub record ActionResult : Type 0 where
  pub success : Bool
  pub dumped : Text

pub data Called : Type 0 where
  result : ActionResult → Called
  raised : String → Called

pub record AgentMemory : Type 0 where
  pub experience : ExperienceMemory
  pub hooks : List Hook
  pub knowledge : Option (KnowledgeMemory String)

-- `knows` is `find_capability(action) is not None`, `call` is `kernel.cap.call` in the name of the agent.
pub record Host (K P : Type 0) : Type 0 where
  pub knows : String → K → Bool
  pub call : String → P → K → Called × K
  pub memory : K → Option AgentMemory
  pub set_memory : AgentMemory → K → K

-- What `complete` of a provider gives: the content of its message, or an exception.
pub data Answer : Type 0 where
  content : Option Text → Answer
  raised : String → Answer
