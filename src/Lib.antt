-- ===== src/Lib.antt =====
-- AIOperator (Buster OS): a local assistant whose kernel schedules jobs, routes events and gates what
-- capabilities may do. The Python package `buster` holds the program; each module here names the file
-- that it is about.
--
-- How the parts interact. A request names an action. The capability registry finds its capability, asks
-- the permission manager and, for a sensitive action that is denied, the elevation callback, invokes the
-- capability and tells the event router and the audit. The scheduler runs jobs by time and priority; the
-- world model keeps facts and announces every change; the agent manager keeps the agents. Goals, plans,
-- memories and the configuration are tables with a file. The bridge of the host reaches all of this only
-- by the typed calls of buster/exec.py. The resolver computes the packages of a root file system,
-- whose archives and indexes the readers of osbuild take apart. A daemon owns the kernel by a lock file
-- and answers requests that lie in files; the agents ask a model provider for steps and call the
-- actions, and what a run teaches goes into the memories.
--
-- Modules and sources.
--   Prelude, Dict: shared tests, lists, stable sorting, integers, and Python's `dict` with its laws.
--   Kernel.Permissions: buster/kernel/permissions.py (class Permissions).
--   Kernel.Scheduler: buster/kernel/scheduler.py (class Scheduler; `round` is one turn of `_run_loop`,
--     `.Execute` its accesses one by one between the calls of other threads).
--   Kernel.EventRouter: buster/kernel/event_router.py (`round` is one turn of `_event_loop`).
--   Kernel.AgentManager, Kernel.WorldModel: buster/kernel/agent_manager.py and world_model.py.
--   Security.Context, Security.Elevation: buster/security/context.py and elevation.py.
--   Capabilities.Registry: buster/capabilities/base.py and registry.py.
--   Exec: buster/exec.py (`Exec.Views` the documents, `Exec.Entry` the dispatch).
--   Intelligence.Goals, .Plans, .Rhythm: buster/intelligence/goals.py, plans.py and rhythm.py.
--   Memory.Core, .Knowledge: buster/memory/core.py and knowledge.py.
--   Kernel.Audit, .Core: buster/kernel/audit.py and core.py (`start` and `stop` over the parts).
--   Runtime.Lock, .Rpc: buster/runtime.py (classes RuntimeLock, RuntimeServer and RuntimeClient).
--   Agents: buster/agents/planner.py (.Planner, .Replies) and orchestration.py (.Orchestrator), with the
--     rule-based answers of buster/ai_providers/local.py.
--   Intelligence.Attention, .Learning, .Selection: buster/intelligence/attention.py, learning.py and
--     providers.py.
--   Intelligence.Working, .Episodes, .Procedures: buster/intelligence/memory.py.
--   Memory.Experience, .Reflection, .Lines: buster/memory/experience.py and reflection.py.
--   Security.Protection: buster/security/protection.py. Providers: buster/ai_providers/registry.py.
--   Perception: buster/perception/base.py.
--   Config: buster/config.py. Shell.Parser: buster/shell/parser.py. Shell.Commands:
--     buster/shell/registry.py and results.py.
--   Osbuild.Archive, .Control: buster/osbuild/deb.py. Osbuild.Index: buster/osbuild/packages.py.
--     Osbuild.Elf: buster/osbuild/elf.py.
--   Osbuild.Version, .Resolver: buster/osbuild/resolver.py.
--
-- Conventions. A class is a record of its fields, a method a function from the state to the new state and
-- the result. The time, a fresh identifier and what a handler or callback answers are arguments. What is
-- handed to another part is a list in the order of the calls. A method under a lock is one step. Times
-- are natural numbers, confidences and progress are in thousandths. Priorities, delays and intervals are
-- integers. A binary heap is the list of its entries in the order in which they leave it.
--
-- Bounds and fuel. The loop of the resolver runs on fuel: one round for each seed and each package of the
-- tables, which `Osbuild.Resolver.Measure` shows to be enough. The endless loops of the scheduler and the
-- event router are modelled by their rounds. The reader of archives runs on as many rounds as
-- the archive has bytes, which is enough unless a size is negative, since each member takes at least its
-- header. A process that asks for the lock makes seven calls at most. The planner runs on its own limit
-- of steps. The world model keeps its limit of events as a parameter.
--
-- Not modelled: sockets, files and processes of the host, the Android application and the web interface,
-- the implementations of capabilities, the parts that only print, the shell session and the legacy
-- packages at the root. The operations of `rpc` and the intelligence layer are arguments of the parts that
-- call them. Where a file is read, it is one
-- that can be read; JSON text itself is not modelled, a file is the value that was written to it. The
-- accesses of `_execute` are mixed with the calls of other threads in `Kernel.Scheduler.Execute`, and those
-- of processes that ask for the lock in `Runtime.Lock`; elsewhere a call is one step.
pub mod Agents
pub mod Capabilities
pub mod Config
pub mod Dict
pub mod Exec
pub mod Intelligence
pub mod Kernel
pub mod Memory
pub mod Osbuild
pub mod Perception
pub mod Prelude
pub mod Providers
pub mod Runtime
pub mod Security
pub mod Shell
