-- ===== src/Kernel/WorldModel.antt =====
-- buster/kernel/world_model.py: facts, observed and inferred facts, entities, the bounded history
-- of events, components, and the version that every change raises. Values are of any type `V`,
-- `serializable` is `_serializable` on them; `now` is the time of the call; confidences are in
-- thousandths. The event bus is outside: `emitted` lists what it was given, snapshot included.
pub mod Events
pub mod Facts
mod Tests
use aioperator.Prelude.{
  ℕ, suc, ◌+◌, ◌-◌, ◌≡◌, Bool, true, false, ◌&&◌, Option, none, some, List, [], ◌∷◌, ◌++◌, map,
  String, str_eq, if◌then◌else◌, keep, length, drop, last_n, ℤ, pos_part, min, fstring, get_or, any,
}
use aioperator.Dict.{Eq, Dict, get, put, remove, values, string_eq}

pub record Observation (V : Type 0) : Type 0 where
  pub value : V
  pub source : String
  pub provenance : String
  pub ts : ℕ

pub record Inference (V : Type 0) : Type 0 where
  pub value : V
  pub confidence : ℕ
  pub source : String
  pub ts : ℕ

pub record Entity (V : Type 0) : Type 0 where
  pub id : String
  pub kind : String
  pub attrs : Dict String V
  pub created : ℕ
  pub updated : ℕ

pub record WorldEvent (V : Type 0) : Type 0 where
  pub ts : ℕ
  pub type : String
  pub detail : Dict String V

pub record ComponentState (V : Type 0) : Type 0 where
  pub name : String
  pub status : String
  pub started_at : Option ℕ
  pub metadata : Dict String V

pub record Snapshot (V : Type 0) : Type 0 where
  pub version : ℕ
  pub updated_at : Option ℕ
  pub facts : Dict String V
  pub observed : Dict String (Observation V)
  pub inferred : Dict String (Inference V)
  pub entities : List (Entity V)
  pub events : List (WorldEvent V)
  pub components : List (ComponentState V)

pub record WorldModel (V : Type 0) : Type 0 where
  pub facts : Dict String V
  pub observed : Dict String (Observation V)
  pub inferred : Dict String (Inference V)
  pub components : Dict String (ComponentState V)
  pub entities : Dict String (Entity V)
  pub events : List (WorldEvent V)
  pub history_limit : ℕ
  pub version : ℕ
  pub updated_at : Option ℕ
  pub has_router : Bool
  pub emitted : List (String × Snapshot V)

-- `deque(maxlen=limit).append`: what no longer fits is dropped from the left.
abbrev pub append_bounded {ℓ} : {A : Type ℓ} → ℕ → A → List A → List A
append_bounded limit x xs = let ys = xs ++ x ∷ [] in drop (length ys - limit) ys

-- `dict.update`
abbrev pub update : {V : Type 0} → Dict String V → Dict String V → Dict String V
update d [] = d
update d ((k, v) ∷ more) = update (put k v d) more

-- `min(max(confidence, 0.0), 1.0)`
abbrev pub clamp_confidence : ℤ → ℕ
clamp_confidence c = min (pos_part c) 1000

module _ {V : Type 0} where
  abbrev pub init : Bool → ℕ → WorldModel V
  init router limit = record {
    facts = [];
    observed = [];
    inferred = [];
    components = [];
    entities = [];
    events = [];
    history_limit = limit;
    version = 0;
    updated_at = none;
    has_router = router;
    emitted = [];
  }

  unfoldable pub recent_events : ℕ → Option (List String) → WorldModel V → List (WorldEvent V)
  recent_events limit kinds w = last_n limit (elim kinds [
    | none ↦ w.events
    | some [] ↦ w.events
    | some (k ∷ ks) ↦ keep (λ e. any (k ∷ ks) (λ s. str_eq e.type s)) w.events
  ])

  unfoldable pub snapshot : WorldModel V → Snapshot V
  unfolding recent_events
  snapshot w = record {
    version = w.version;
    updated_at = w.updated_at;
    facts = w.facts;
    observed = w.observed;
    inferred = w.inferred;
    entities = values w.entities;
    events = recent_events 20 none w;
    components = values w.components;
  }

  -- `_bump`
  unfoldable pub bump : ℕ → String → WorldModel V → WorldModel V
  bump now type w =
      let w' : WorldModel V = record w { version = w.version + 1; updated_at = some now } in
      if w.has_router then record w' { emitted = w.emitted ++ (type, snapshot w') ∷ [] } else w'

  unfoldable pub set_fact : ℕ → String → V → WorldModel V → WorldModel V
  set_fact now key value w =
      bump now (fstring ("fact.set." ∷ key ∷ [])) (record w { facts = put key value w.facts })

  unfoldable pub get_fact : String → V → WorldModel V → V
  get_fact key default w = get_or (get key w.facts) default

  unfoldable pub observe :
      (serializable : V → V) (now : ℕ) (key : String) (value : V) (source provenance : String)
      → WorldModel V
      → WorldModel V
  observe serializable now key value source provenance w = set_fact now key value (record w {
    observed =
        put key
          (record {
            value = serializable value;
            source = source;
            provenance = provenance;
            ts = now;
          })
          w.observed;
  })

  unfoldable pub infer :
      (serializable : V → V) (now : ℕ) (key : String) (value : V) (confidence : ℤ) (source : String)
      → WorldModel V
      → WorldModel V
  infer serializable now key value confidence source w = set_fact now key value (record w {
    inferred =
        put key
          (record {
            value = serializable value;
            confidence = clamp_confidence confidence;
            source = source;
            ts = now;
          })
          w.inferred;
  })

  unfoldable pub forget_inferred : String → WorldModel V → WorldModel V
  forget_inferred key w = record w { inferred = remove key w.inferred }

  unfoldable pub add_entity : ℕ → String → String → Dict String V → WorldModel V → WorldModel V
  add_entity now id kind attrs w =
      let entity : Entity V = elim (get id w.entities) [
        | none ↦ record { id = id; kind = kind; attrs = attrs; created = now; updated = now }
        | some e ↦ record e { attrs = update e.attrs attrs; updated = now }
      ] in
      bump now (fstring ("entity." ∷ id ∷ [])) (record w { entities = put id entity w.entities })

  -- The guard of `record_event`: the last event has the type and the detail.
  unfoldable pub repeats_last :
      (Dict String V → Dict String V → Bool) → String → Dict String V → List (WorldEvent V) → Bool
  repeats_last same type detail [] = false
  repeats_last same type detail (e ∷ []) = str_eq e.type type && same e.detail detail
  repeats_last same type detail (e ∷ f ∷ events) = repeats_last same type detail (f ∷ events)

  -- `same` is `==` on details.
  unfoldable pub record_event :
      (same : Dict String V → Dict String V → Bool) (now : ℕ) (type : String)
      → Dict String V
      → WorldModel V
      → WorldModel V
  record_event same now type detail w =
      if repeats_last same type detail w.events
      then w
      else bump now (fstring ("event." ∷ type ∷ [])) (record w {
        events =
            append_bounded w.history_limit (record { ts = now; type = type; detail = detail })
              w.events;
      })

  unfoldable pub register_component : ℕ → String → Dict String V → WorldModel V → WorldModel V
  register_component now name metadata w =
      bump now (fstring ("component.registered." ∷ name ∷ [])) (record w {
        components =
            put name
              (record { name = name; status = "stopped"; started_at = none; metadata = metadata })
              w.components;
      })

  unfoldable pub component_status :
      ℕ → String → String → Dict String V → WorldModel V → WorldModel V
  component_status now name status metadata w =
      let old : ComponentState V = elim (get name w.components) [
        | none ↦ record { name = name; status = "stopped"; started_at = none; metadata = [] }
        | some c ↦ c
      ] in
      bump now (fstring ("component.status." ∷ name ∷ [])) (record w {
        components =
            put name
              (record old {
                status = status;
                started_at = some (get_or old.started_at now);
                metadata = update old.metadata metadata;
              })
              w.components;
      })
