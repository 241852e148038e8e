-- ===== src/Kernel/Core.antt =====
-- buster/kernel/core.py: start and stop of the kernel over its parts. What the world model and the agents
-- announce goes to the event router at once. Values of facts are of type `V`, `M` is the memory with
-- its `reflect` on the last experiences; `intel_start` and `intel_stop` are the calls of the
-- intelligence layer, an exception of which leaves the kernel as it then is. Logging is left out.
pub mod Lifecycle
mod Tests
use aioperator.Prelude.{
  ℕ, Bool, true, false, Option, none, some, List, [], ◌∷◌, ◌++◌, map, String, if◌then◌else◌, drop,
  length, ◌==◌,
}
use aioperator.Dict.{Dict}
use aioperator.Kernel.EventRouter.{EventRouter, emit, start as start_router}
use aioperator.Kernel.Scheduler.{Scheduler, start as start_jobs, stop as stop_jobs}
use aioperator.Kernel.WorldModel.{WorldModel, Snapshot, set_fact, component_status}
use aioperator.Kernel.AgentManager.{
  AgentManager, AgentEvent, was_spawned, was_started, was_stopped, has_failed, shutdown_all,
}
use aioperator.Kernel.Audit.{AuditEntry, Audit, record_entry}
use aioperator.Memory.Lines.{Line}
use aioperator.Capabilities.Registry.{CapabilityRegistry, Effect}
use aioperator.Capabilities.Registry.Shutdown.{shutdown as close_capabilities, list_capabilities}
use aioperator.Perception.{shutdown as close_sensors}
use aioperator.Providers.{AiProviderRegistry, shutdown as close_providers}
use aioperator.Runtime.Lock.{LockFile, release}

pub data KernelState : Type 0 where
  created starting running stopping stopped : KernelState

abbrev pub code_of : KernelState → ℕ
code_of created = 0
code_of starting = 1
code_of running = 2
code_of stopping = 3
code_of stopped = 4

-- The payloads of events.
pub data Payload (V : Type 0) : Type 0 where
  nothing : Payload V
  world : Snapshot V → Payload V
  agent : AgentEvent → Payload V
  version : String → Payload V

pub record Kernel (V D P M : Type 0) : Type 0 where
  pub state : KernelState
  pub router : EventRouter (Payload V)
  pub scheduler : Scheduler
  pub world_model : WorldModel V
  pub agent_manager : AgentManager V
  pub cap : CapabilityRegistry V D
  pub providers : AiProviderRegistry P
  pub sensors : Dict String (Option V)
  pub memory : M
  pub audit : Audit String
  pub has_lock : Bool
  pub lock_file : Option LockFile

abbrev pub type_of : AgentEvent → String
type_of (was_spawned id name) = "agent.spawned"
type_of (was_started id) = "agent.started"
type_of (was_stopped id) = "agent.stopped"
type_of (has_failed id reason) = "agent.failed"

module _ {V : Type 0} where
  abbrev pub announce :
      List (String × Payload V) → EventRouter (Payload V) → EventRouter (Payload V)
  unfolding emit
  announce [] r = r
  announce ((type, payload) ∷ events) r = announce events (emit nothing type (some payload) r)

  abbrev pub told : WorldModel V → WorldModel V → List (String × Payload V)
  told old new = map (λ e. (e.0, world e.1)) (drop (length old.emitted) new.emitted)

module _ {V D P M : Type 0} where
  -- A change of the world model.
  abbrev pub change_world : (WorldModel V → WorldModel V) → Kernel V D P M → Kernel V D P M
  change_world f k = record k {
    world_model = f k.world_model;
    router = announce (told k.world_model (f k.world_model)) k.router;
  }

  abbrev pub stop_agents : Kernel V D P M → Kernel V D P M
  unfolding shutdown_all
  stop_agents k =
      let agents = shutdown_all k.agent_manager in
      record k {
        agent_manager = agents;
        router =
            announce
              (map (λ e. (type_of e, agent e))
                (drop (length k.agent_manager.emitted) agents.emitted))
              k.router;
      }

module _ {V D P M : Type 0} (less_name : String → String → Bool) (text : String → V)
    (names : List String → V) (size : List (Line (AuditEntry String)) → ℕ)
    (get_version : String) where
  -- `start`, where the kernel does not run.
  abbrev pub bring_up : ℕ → Kernel V D P M → Kernel V D P M
  unfolding emit record_entry
  bring_up now k =
      let k1 = record k { router = start_router k.router } in
      let k2 = change_world (set_fact now "buster.version" (text get_version)) k1 in
      let k3 =
        change_world (set_fact now "capabilities" (names (list_capabilities less_name k2.cap)))
          k2 in
      let k4 = change_world (component_status now "kernel" "starting" []) k3 in
      let k5 = record k4 { scheduler = start_jobs k4.scheduler } in
      let k6 = change_world (component_status now "event_router" "running" []) k5 in
      let k7 = change_world (component_status now "scheduler" "running" []) k6 in
      let k8 = change_world (component_status now "kernel" "running" []) k7 in
      record k8 {
        state = running;
        router = emit nothing "kernel.started" (some (version get_version)) k8.router;
        audit = record_entry size "" now "kernel.start" "kernel" (some get_version) k8.audit;
      }

  unfoldable pub start :
      (intel_start : Kernel V D P M → Kernel V D P M) (now : ℕ) → Kernel V D P M → Kernel V D P M
  unfolding bring_up
  start intel_start now k = if code_of k.state == 2 then k else intel_start (bring_up now k)

-- `stop` behind the call of the intelligence layer.
module _ {V D P M : Type 0} where
  unfoldable pub close_parts : (reflect : M → M) → Kernel V D P M → Kernel V D P M
  unfolding close_capabilities close_sensors close_providers release
  close_parts reflect k = record k {
    memory = reflect k.memory;
    cap = (close_capabilities k.cap).0;
    sensors = close_sensors k.sensors;
    providers = close_providers k.providers;
    lock_file = if k.has_lock then release k.lock_file else k.lock_file;
    state = stopped;
  }

  -- `stop` up to the call of the intelligence layer.
  unfoldable pub halt : ℕ → Kernel V D P M → Kernel V D P M
  unfolding stop_agents component_status
  halt now k =
      let k1 = stop_agents (record k { state = stopping }) in
      let k2 = record k1 { scheduler = stop_jobs k1.scheduler } in
      change_world (component_status now "kernel" "stopped" []) k2

  unfoldable pub stop :
      (intel_stop : Kernel V D P M → Kernel V D P M) (reflect : M → M) (now : ℕ)
      → Kernel V D P M
      → Kernel V D P M
  unfolding halt close_parts
  stop intel_stop reflect now k =
      if code_of k.state == 4 then k else close_parts reflect (intel_stop (halt now k))
