-- ===== src/Kernel/Core/Tests.antt =====
-- A kernel that is started, stopped and started again, and the theorems about it.
use aioperator.Prelude.{
  ℕ, ◌≡◌, refl, Bool, true, false, none, some, is_some, [], ◌∷◌, String, fstring, length,
}
use aioperator.Dict.{get, put, remove, string_eq}
use aioperator.Kernel.EventRouter.{emit, start as start_router}
use aioperator.Kernel.Scheduler.{init as no_jobs, start as start_jobs, stop as stop_jobs}
use aioperator.Kernel.WorldModel.{
  init as empty_world, set_fact, component_status, bump, snapshot, recent_events,
}
use aioperator.Kernel.AgentManager.{init as no_agents, shutdown_all, stop_each, list_agents}
use aioperator.Kernel.Audit.{record_entry, tail}
use aioperator.Capabilities.Registry.{Capability, returns_value, result_fail, call}
use aioperator.Capabilities.Registry.Shutdown.{shutdown as close_capabilities}
use aioperator.Providers.{shutdown as close_providers}
use aioperator.Perception.{shutdown as close_sensors}
use aioperator.Runtime.Lock.{release}
use aioperator.Kernel.Core.{created, code_of, Kernel, start, stop, bring_up, halt, close_parts}
use aioperator.Kernel.Core.Lifecycle.{IsClosed, stop-IsClosed, call-start}

program : Unit {0}
unfolding get put remove emit start_router start_jobs stop_jobs set_fact component_status bump
    snapshot recent_events shutdown_all stop_each list_agents record_entry tail close_capabilities
    close_providers close_sensors release start stop bring_up halt close_parts
program = tt

abbrev clock : Capability String String
clock = record { name = "time"; actions = "time.now" ∷ []; invoke = λ ctx. returns_value "noon" }

abbrev kernel : Kernel String String ℕ ℕ
kernel = record {
  state = created;
  router = record { subscribers = []; queue = []; is_running = false; is_alive = false };
  scheduler = no_jobs;
  world_model = empty_world true 100;
  agent_manager = no_agents;
  cap = record {
    capabilities = ("time", clock) ∷ [];
    action_map = ("time.now", "time") ∷ [];
    kernel = none;
  };
  providers = record { providers = ("local", 1) ∷ []; default = some "local" };
  sensors = ("device", some "phone") ∷ [];
  memory = 0;
  audit = record { file = none; rotated = []; max_bytes = 100 };
  has_lock = true;
  lock_file = some (record { maker = 1; pid = some 1 });
}

abbrev less_name : String → String → Bool
less_name a b = false

abbrev on : Kernel String String ℕ ℕ → Kernel String String ℕ ℕ
unfolding program
on k = start less_name (λ t. t) (λ l. fstring l) length "1.0" (λ j. j) 7 k

abbrev off : Kernel String String ℕ ℕ → Kernel String String ℕ ℕ
unfolding program
off k = stop (λ j. j) (λ m. m) 8 k

-- Six changes of the world and the start itself are queued; a second start does nothing.
run_tests :
    (code_of (on kernel).state ≡ 2)
    × (length (on kernel).router.queue ≡ 7)
    × ((on kernel).world_model.version ≡ 6)
    × (length (on (on kernel)).router.queue ≡ 7)
    × (length (tail 5 (on kernel).audit) ≡ 1)
    × (code_of (off (on kernel)).state ≡ 4)
    × (is_some (off (on kernel)).lock_file ≡ false)
    × ((off (on kernel)).router.is_running ≡ true)
    × ((off (on kernel)).scheduler.is_running ≡ false)
unfolding program
run_tests = (refl, refl, refl, refl, refl, refl, refl, refl, refl)

stop-IsClosed_example :
    IsClosed (stop (λ j. j) (λ m. m) 8 (on kernel))
    × ((stop (λ j. j) (λ m. m) 8 (on kernel)).scheduler.is_running ≡ false)
    × ((stop (λ j. j) (λ m. m) 8 (on kernel)).router.is_running ≡ (on kernel).router.is_running)
unfolding program
stop-IsClosed_example = stop-IsClosed (λ j. j) (λ m. m) 8 (on kernel) refl (λ j. refl) (λ j. refl)

call-start_example :
    call "time.now" none none none
      (start less_name
        (λ t. t)
        (λ l. fstring l)
        length
        "1.0"
        (λ j. j)
        9
        (stop (λ j. j) (λ m. m) 8 (on kernel))).cap
    ≡ (result_fail (fstring ("No capability provides action '" ∷ "time.now" ∷ "'" ∷ [])), [])
unfolding program
call-start_example =
    call-start less_name (λ t. t) (λ l. fstring l) length "1.0" (λ j. j) (λ j. j) (λ m. m) 8 9
      (on kernel) "time.now" none none none refl (λ j. refl)
