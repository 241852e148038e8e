-- ===== src/Kernel/AgentManager/Shutdown.antt =====
-- What `shutdown_all` leaves of every agent.
use aioperator.Prelude.{
  ◌≡◌, refl, Bool, false, ◌&&◌, Option, none, some, List, [], ◌∷◌, String, str_eq, eq_iff,
  if◌then◌else◌, arith, any, Bool-cases, Option-cases, inl, inr,
}
use aioperator.Dict.{Dict, get as find, put, remove, values, string_eq}
use aioperator.Dict.Laws.{get-put}
use aioperator.Dict.Distinct.{IsDistinct, IsDistinct-put, IsDistinct-remove}
use aioperator.Kernel.AgentManager.{
  AgentInfo, AgentEvent, init, spawn, activate, destroy, fail, AgentManager, stopped, is_live, get,
  stop, stop_or_log, stop_each, shutdown_all, list_agents,
}

-- Each agent is filed under its own id.
abbrev OwnIds : {V : Type 0} → Dict String (AgentInfo V) → Type 0
OwnIds [] = Unit
OwnIds ((id, a) ∷ d) = (a.agent_id ≡ id) × OwnIds d

record IsFiled {V : Type 0} (m : AgentManager V) : Type 0 where
  distinct : IsDistinct m.agents
  own_ids : OwnIds m.agents

module _ {V : Type 0} where
  abbrev pub settled : AgentInfo V → AgentInfo V
  settled a = if is_live a.status then record a { status = stopped } else a

  -- Some agent of the list has the id and is live.
  abbrev names_live : String → List (AgentInfo V) → Bool
  names_live id agents = any agents (λ a. str_eq a.agent_id id && is_live a.status)

  get-stop_or_log :
      (id other : String) (m : AgentManager V) (a : AgentInfo V)
      → get id m ≡ some a
      → get id (stop_or_log other m)
        ≡ some (if str_eq other id then record a { status = stopped } else a)
  unfolding stop_or_log stop get
  get-stop_or_log id other m a g = elim (Option-cases (get other m)) [
    | inl e ↦ ground (arith, eq_iff other id)
    | inr (b, e) ↦
        ground (arith, get-put other id (record b { status = stopped }) m.agents, eq_iff other id)
  ]

  get-stop_each :
      (id : String) (agents : List (AgentInfo V)) (m : AgentManager V) (a : AgentInfo V)
      → get id m ≡ some a
      → get id (stop_each agents m)
        ≡ some (if names_live id agents then record a { status = stopped } else a)
  unfolding stop_each
  get-stop_each id [] m a g = g
  get-stop_each id (b ∷ agents) m a g = elim (Bool-cases (is_live b.status)) [
    | inl live ↦ elim (Bool-cases (str_eq b.agent_id id)) [
      | inl same ↦
          rw (live, stop_each)
            (ground (
              arith,
              get-stop_or_log id b.agent_id m a g,
              get-stop_each id agents (stop_or_log b.agent_id m) (record a { status = stopped }),
            ))
      | inr other ↦
          rw (live, stop_each)
            (ground (
              arith,
              get-stop_or_log id b.agent_id m a g,
              get-stop_each id agents (stop_or_log b.agent_id m) a,
            ))
    ]
    | inr dead ↦ rw (dead, stop_each) (ground (arith, get-stop_each id agents m a g))
  ]

  names_live-none :
      (id : String) (d : Dict String (AgentInfo V))
      → OwnIds d
      → find id d ≡ none
      → names_live id (values d) ≡ false
  unfolding find
  names_live-none id [] own h = refl
  names_live-none id ((j, b) ∷ d) own h = ground (arith, names_live-none id d own.1)

  names_live-some :
      (id : String) (d : Dict String (AgentInfo V)) (a : AgentInfo V)
      → IsDistinct d
      → OwnIds d
      → find id d ≡ some a
      → names_live id (values d) ≡ is_live a.status
  unfolding find
  names_live-some id [] a dis own h = absurd (cc h)
  names_live-some id ((j, b) ∷ d) a dis own h =
      ground (arith, names_live-some id d a dis.1 own.1, names_live-none id d own.1, eq_iff j id)

  OwnIds-put :
      (id : String) (a : AgentInfo V) (d : Dict String (AgentInfo V))
      → a.agent_id ≡ id
      → OwnIds d
      → OwnIds (put id a d)
  unfolding put
  OwnIds-put id a [] e own = (e, tt)
  OwnIds-put id a ((j, b) ∷ d) e own = elim (Bool-cases (str_eq j id)) [
    | inl q ↦ rw q (ground (arith, eq_iff j id), own.1)
    | inr q ↦ rw q (own.0, OwnIds-put id a d e own.1)
  ]

  OwnIds-remove : (id : String) (d : Dict String (AgentInfo V)) → OwnIds d → OwnIds (remove id d)
  unfolding remove
  OwnIds-remove id [] own = tt
  OwnIds-remove id ((j, b) ∷ d) own = elim (Bool-cases (str_eq j id)) [
    | inl q ↦ rw q (OwnIds-remove id d own.1)
    | inr q ↦ rw q (own.0, OwnIds-remove id d own.1)
  ]

  OwnIds-find :
      (id : String) (d : Dict String (AgentInfo V)) (a : AgentInfo V)
      → OwnIds d
      → find id d ≡ some a
      → a.agent_id ≡ id
  unfolding find
  OwnIds-find id [] a own h = absurd (cc h)
  OwnIds-find id ((j, b) ∷ d) a own h = ground (arith, OwnIds-find id d a own.1, eq_iff j id)

pub data Op (V : Type 0) : Type 0 where
  spawns : (id name : String) → Dict String V → Op V
  activates stops destroys : String → Op V
  fails : (id reason : String) → V → Op V

module _ {V : Type 0} where
  -- A call that raises leaves the manager as it was.
  abbrev or_same : AgentManager V → Option (AgentManager V) → AgentManager V
  or_same m none = m
  or_same m (some m') = m'

  unfoldable pub apply : Op V → AgentManager V → AgentManager V
  apply (spawns id name meta) m = spawn id name meta m
  apply (activates id) m = or_same m (activate id m)
  apply (stops id) m = or_same m (stop id m)
  apply (destroys id) m = destroy id m
  apply (fails id reason value) m = or_same m (fail id reason value m)

  unfoldable pub run : List (Op V) → AgentManager V → AgentManager V
  run [] m = m
  run (op ∷ ops) m = run ops (apply op m)

  put-IsFiled :
      (id : String) (a : AgentInfo V) (events : List AgentEvent) (m : AgentManager V)
      → a.agent_id ≡ id
      → IsFiled m
      → IsFiled (record { agents = put id a m.agents; emitted = events })
  put-IsFiled id a events m e f = record {
    distinct = IsDistinct-put id a m.agents f.distinct;
    own_ids = OwnIds-put id a m.agents e f.own_ids;
  }

  apply-IsFiled : (op : Op V) (m : AgentManager V) → IsFiled m → IsFiled (apply op m)
  unfolding apply spawn activate stop destroy fail get
  apply-IsFiled (spawns id name meta) m f = put-IsFiled id _ _ m refl f
  apply-IsFiled (activates id) m f = elim (Option-cases (find id m.agents)) [
    | inl e ↦ rw (e, or_same) f
    | inr (a, e) ↦ rw (e, or_same) (put-IsFiled id _ _ m (OwnIds-find id m.agents a f.own_ids e) f)
  ]
  apply-IsFiled (stops id) m f = elim (Option-cases (find id m.agents)) [
    | inl e ↦ rw (e, or_same) f
    | inr (a, e) ↦ rw (e, or_same) (put-IsFiled id _ _ m (OwnIds-find id m.agents a f.own_ids e) f)
  ]
  apply-IsFiled (destroys id) m f = record {
    distinct = IsDistinct-remove id m.agents f.distinct;
    own_ids = OwnIds-remove id m.agents f.own_ids;
  }
  apply-IsFiled (fails id reason value) m f = elim (Option-cases (find id m.agents)) [
    | inl e ↦ rw (e, or_same) f
    | inr (a, e) ↦ rw (e, or_same) (put-IsFiled id _ _ m (OwnIds-find id m.agents a f.own_ids e) f)
  ]

  run-IsFiled : (ops : List (Op V)) (m : AgentManager V) → IsFiled m → IsFiled (run ops m)
  unfolding run
  run-IsFiled [] m f = f
  run-IsFiled (op ∷ ops) m f = run-IsFiled ops (apply op m) (apply-IsFiled op m f)

  -- After any history of spawns, activations, stops, failures and destructions, the shutdown stops
  -- every agent that was spawning or active, and leaves every other one as it was.
  pub shutdown_all-run :
      (ops : List (Op V)) (id : String) (a : AgentInfo V)
      → get id (run ops init) ≡ some a
      → get id (shutdown_all (run ops init)) ≡ some (settled a)
  unfolding shutdown_all list_agents
  shutdown_all-run ops id a g =
      let m = run ops init in
      let f = run-IsFiled ops init (record { distinct = tt; own_ids = tt }) in
      ground (
        arith,
        get-stop_each id (values m.agents) m a g,
        names_live-some id m.agents a f.distinct f.own_ids (unfold get in g),
      )
