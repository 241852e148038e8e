-- ===== src/Kernel/AgentManager/Tests.antt =====
-- Three agents and a shutdown.
use aioperator.Prelude.{◌≡◌, refl, none, some, List, [], ◌∷◌, String}
use aioperator.Dict.{get as find, put, remove, string_eq}
use aioperator.Kernel.AgentManager.{
  AgentInfo, init, spawn, get, activate, stop, fail, list_agents, stop_or_log, stop_each,
  shutdown_all, active, stopped, destroy,
}
use aioperator.Kernel.AgentManager.Shutdown.{
  Op, spawns, activates, fails, run, shutdown_all-run, apply,
}

program : Unit {0}
unfolding find put remove spawn get activate stop fail destroy list_agents stop_or_log stop_each
    shutdown_all run apply
program = tt

abbrev history : List (Op String)
history =
    spawns "1" "planner" [] ∷ spawns "2" "fixer" [] ∷ activates "1" ∷ fails "2" "lost" "lost" ∷ []

abbrev planner : AgentInfo String
planner = record { agent_id = "1"; name = "planner"; status = active; meta = [] }

shutdown_all-run_example :
    get "1" (shutdown_all (run history init)) ≡ some (record planner { status = stopped })
unfolding program
shutdown_all-run_example = shutdown_all-run history "1" planner refl

unknown_agent : stop "3" (run history init) ≡ none
unfolding program
unknown_agent = refl
