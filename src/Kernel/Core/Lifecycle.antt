-- ===== src/Kernel/Core/Lifecycle.antt =====
-- buster/kernel/core.py: what stands behind `stop`, and behind a `start` that follows it.
use aioperator.Prelude.{
  ℕ, ◌≡◌, refl, ap, ◌∙◌, Bool, true, false, Option, none, some, List, [], ◌∷◌, String, fstring,
  if◌then◌else◌, ◌==◌, arith,
}
use aioperator.Dict.{Dict, get, string_eq}
use aioperator.Kernel.EventRouter.{EventRouter, emit}
use aioperator.Kernel.Scheduler.{Scheduler, stop as stop_jobs}
use aioperator.Kernel.Audit.{AuditEntry}
use aioperator.Memory.Lines.{Line}
use aioperator.Security.Context.{Inputs}
use aioperator.Capabilities.Registry.{CapabilityRegistry, result_fail, find_capability, call}
use aioperator.Capabilities.Registry.Shutdown.{shutdown_lem}
use aioperator.Perception.{shutdown as close_sensors}
use aioperator.Providers.{shutdown as close_providers}
use aioperator.Kernel.Core.{
  stopped, code_of, Payload, nothing, Kernel, announce, stop_agents, bring_up, start, close_parts,
  halt, stop,
}

module _ {V : Type 0} where
  if-is_running :
      (b : Bool) (x y : EventRouter (Payload V)) (c : Bool)
      → x.is_running ≡ c
      → y.is_running ≡ c
      → (if b then x else y).is_running ≡ c
  if-is_running true x y c u v = u
  if-is_running false x y c u v = v

  emit-is_running :
      (type : String) (payload : Option (Payload V)) (r : EventRouter (Payload V))
      → (emit nothing type payload r).is_running ≡ r.is_running
  unfolding emit
  emit-is_running type payload r = if-is_running r.is_running _ r r.is_running refl refl

  announce-is_running :
      (events : List (String × Payload V)) (r : EventRouter (Payload V))
      → (announce events r).is_running ≡ r.is_running
  unfolding announce
  announce-is_running [] r = refl
  announce-is_running ((type, payload) ∷ events) r =
      announce-is_running events (emit nothing type (some payload) r)
      ∙ emit-is_running type (some payload) r

stop_jobs-is_running : (s : Scheduler) → (stop_jobs s).is_running ≡ false
unfolding stop_jobs
stop_jobs-is_running s = ground arith

find_empty :
    {V D : Type 0} (action : String) (c : CapabilityRegistry V D)
    → c.action_map ≡ []
    → find_capability action c ≡ none
unfolding find_capability get
find_empty action c h = rw h refl

call_empty :
    {V D : Type 0} (action : String) (scope : Option String) (extra : Option (Dict String V))
    (context : Option (Inputs V)) (c : CapabilityRegistry V D)
    → c.action_map ≡ []
    → call action scope extra context c
      ≡ (result_fail (fstring ("No capability provides action '" ∷ action ∷ "'" ∷ [])), [])
unfolding call
call_empty action scope extra context c h = rw (find_empty action c h, call) refl

module _ {V D P M : Type 0} where
  -- Nothing is left of the parts that `stop` closes.
  pub record IsClosed (k : Kernel V D P M) : Type 0 where
    pub is_stopped : k.state ≡ stopped
    pub no_capability : k.cap.capabilities ≡ []
    pub no_action : k.cap.action_map ≡ []
    pub no_sensor : k.sensors ≡ []
    pub no_provider : k.providers.providers ≡ []

  close_parts-IsClosed : (reflect : M → M) (k : Kernel V D P M) → IsClosed (close_parts reflect k)
  unfolding close_parts close_sensors close_providers
  close_parts-IsClosed reflect k = record {
    is_stopped = refl;
    no_capability = (shutdown_lem k.cap).0;
    no_action = (shutdown_lem k.cap).1;
    no_sensor = refl;
    no_provider = refl;
  }

  halt-router :
      (now : ℕ) (k : Kernel V D P M) → (halt now k).router.is_running ≡ k.router.is_running
  unfolding halt stop_agents
  halt-router now k = announce-is_running _ _ ∙ announce-is_running _ k.router

  halt-scheduler : (now : ℕ) (k : Kernel V D P M) → (halt now k).scheduler.is_running ≡ false
  unfolding halt stop_agents
  halt-scheduler now k = stop_jobs-is_running k.scheduler

  module _ (intel_stop : Kernel V D P M → Kernel V D P M) (reflect : M → M) where
    stop-running :
        (now : ℕ) (k : Kernel V D P M)
        → (code_of k.state == 4) ≡ false
        → stop intel_stop reflect now k ≡ close_parts reflect (intel_stop (halt now k))
    unfolding stop
    stop-running now k h = rw h refl

    -- Behind `stop` of a kernel that is not stopped yet: the state is stopped, no capability, action,
    -- sensor or provider is left, the scheduler is off, and the event router runs if and only if
    -- it ran before. The condition is that the intelligence layer switches neither of the two on or off.
    pub stop-IsClosed :
        (now : ℕ) (k : Kernel V D P M)
        → (code_of k.state == 4) ≡ false
        → ((j : Kernel V D P M) → (intel_stop j).scheduler.is_running ≡ j.scheduler.is_running)
        → ((j : Kernel V D P M) → (intel_stop j).router.is_running ≡ j.router.is_running)
        → IsClosed (stop intel_stop reflect now k)
          × ((stop intel_stop reflect now k).scheduler.is_running ≡ false)
          × ((stop intel_stop reflect now k).router.is_running ≡ k.router.is_running)
    unfolding close_parts
    stop-IsClosed now k h s r = rw (stop-running now k h) (
      close_parts-IsClosed reflect (intel_stop (halt now k)),
      s (halt now k) ∙ halt-scheduler now k,
      r (halt now k) ∙ halt-router now k,
    )

module _ {V D P M : Type 0} (less_name : String → String → Bool) (text : String → V)
    (names : List String → V) (size : List (Line (AuditEntry String)) → ℕ) (get_version : String)
    (intel_start intel_stop : Kernel V D P M → Kernel V D P M) (reflect : M → M) where
  start-stopped :
      (now : ℕ) (k : Kernel V D P M)
      → (code_of k.state == 2) ≡ false
      → start less_name text names size get_version intel_start now k
        ≡ intel_start (bring_up less_name text names size get_version now k)
  unfolding start
  start-stopped now k h = rw h refl

  bring_up-cap :
      (now : ℕ) (k : Kernel V D P M)
      → (bring_up less_name text names size get_version now k).cap ≡ k.cap
  unfolding bring_up
  bring_up-cap now k = refl

  -- A kernel that was stopped and is started again serves no action: every call is answered with the
  -- error for an action that no capability provides, and nothing is done. The condition is that the
  -- start of the intelligence layer registers no capability.
  pub call-start :
      (early late : ℕ) (k : Kernel V D P M) (action : String) (scope : Option String)
      (extra : Option (Dict String V)) (context : Option (Inputs V))
      → (code_of k.state == 4) ≡ false
      → ((j : Kernel V D P M) → (intel_start j).cap ≡ j.cap)
      → call action scope extra context
          (start less_name text names size get_version intel_start late
            (stop intel_stop reflect early k)).cap
        ≡ (result_fail (fstring ("No capability provides action '" ∷ action ∷ "'" ∷ [])), [])
  call-start early late k action scope extra context h i =
      let s = stop intel_stop reflect early k in
      let closed : IsClosed s =
        rw (stop-running intel_stop reflect early k h)
          (close_parts-IsClosed reflect (intel_stop (halt early k))) in
      call_empty action scope extra context _ (
        ap (λ j. j.cap.action_map) (start-stopped late s (rw closed.is_stopped refl))
        ∙ ap (λ c. c.action_map)
            (i (bring_up less_name text names size get_version late s) ∙ bring_up-cap late s)
        ∙ closed.no_action)
