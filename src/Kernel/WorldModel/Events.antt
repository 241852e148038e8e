-- ===== src/Kernel/WorldModel/Events.antt =====
-- The bounded history of events, and the announcements of the versions, over every history of calls.
use native.Mathlib.Numerals.{add-one}
use aioperator.Prelude.{
  ℕ, zero, suc, ◌+◌, ◌-◌, ◌≤◌, ◌≡◌, refl, Bool, true, false, ◌&&◌, List, [], ◌∷◌, ◌++◌, map, String,
  str_eq, length, drop, length-drop, ℤ, arith, Bool-cases, inl, inr,
}
use mathlib.Core.List.{map-append}
use aioperator.Dict.{Dict, string_eq}
use aioperator.Kernel.WorldModel.{
  WorldModel, WorldEvent, init, bump, snapshot, set_fact, observe, infer, forget_inferred,
  add_entity, record_event, repeats_last, register_component, component_status, append_bounded,
}

pub data Op (V : Type 0) : Type 0 where
  setting : (now : ℕ) (key : String) → V → Op V
  observing : (now : ℕ) (key : String) → V → (source provenance : String) → Op V
  inferring : (now : ℕ) (key : String) → V → ℤ → String → Op V
  forgetting : String → Op V
  entering : (now : ℕ) (id kind : String) → Dict String V → Op V
  recording : (now : ℕ) (type : String) → Dict String V → Op V
  registering : (now : ℕ) (name : String) → Dict String V → Op V
  reporting : (now : ℕ) (name status : String) → Dict String V → Op V

module _ {V : Type 0} (serializable : V → V) (same : Dict String V → Dict String V → Bool) where
  unfoldable pub apply : Op V → WorldModel V → WorldModel V
  apply (setting now key v) = set_fact now key v
  apply (observing now key v source provenance) = observe serializable now key v source provenance
  apply (inferring now key v c source) = infer serializable now key v c source
  apply (forgetting key) = forget_inferred key
  apply (entering now id kind attrs) = add_entity now id kind attrs
  apply (recording now type detail) = record_event same now type detail
  apply (registering now name meta) = register_component now name meta
  apply (reporting now name status meta) = component_status now name status meta

  unfoldable pub run : List (Op V) → WorldModel V → WorldModel V
  run [] w = w
  run (op ∷ ops) w = run ops (apply op w)

-- The numbers from 1 to `n`.
abbrev pub upto : ℕ → List ℕ
upto zero = []
upto (suc n) = upto n ++ suc n ∷ []

upto_next : (n : ℕ) → upto (n + 1) ≡ upto n ++ (n + 1) ∷ []
upto_next n = rw (add-one n) refl

append_bounded-length :
    {A : Type 0} (limit : ℕ) (x : A) (xs : List A) → length (append_bounded limit x xs) ≤ limit
append_bounded-length limit x xs =
    let ys = xs ++ x ∷ [] in omega (arith, length-drop (length ys - limit) ys)

module _ {V : Type 0} where
  bump_events :
      (now : ℕ) (type : String) (w : WorldModel V)
      → ((bump now type w).events ≡ w.events) × ((bump now type w).history_limit ≡ w.history_limit)
  unfolding bump
  bump_events now type w = ground arith

module _ {V : Type 0} (same : Dict String V → Dict String V → Bool) where
  -- No event has the type and the detail of the one before it.
  abbrev pub NoRepeats : List (WorldEvent V) → Type 0
  NoRepeats [] = Unit
  NoRepeats (e ∷ []) = Unit
  NoRepeats (e ∷ f ∷ events) =
      ((str_eq e.type f.type && same e.detail f.detail) ≡ false) × NoRepeats (f ∷ events)

  NoRepeats-append :
      (events : List (WorldEvent V)) (x : WorldEvent V)
      → repeats_last same x.type x.detail events ≡ false
      → NoRepeats events
      → NoRepeats (events ++ x ∷ [])
  unfolding repeats_last
  NoRepeats-append [] x h n = tt
  NoRepeats-append (e ∷ []) x h n = (h, tt)
  NoRepeats-append (e ∷ f ∷ events) x h n = (n.0, NoRepeats-append (f ∷ events) x h n.1)

  NoRepeats-drop :
      (k : ℕ) (events : List (WorldEvent V)) → NoRepeats events → NoRepeats (drop k events)
  NoRepeats-drop zero events n = n
  NoRepeats-drop (suc k) [] n = n
  NoRepeats-drop (suc k) (e ∷ []) n = NoRepeats-drop k [] tt
  NoRepeats-drop (suc k) (e ∷ f ∷ events) n = NoRepeats-drop k (f ∷ events) n.1

  pub record IsTidy (limit : ℕ) (w : WorldModel V) : Type 0 where
    pub same_limit : w.history_limit ≡ limit
    pub bounded : length w.events ≤ limit
    pub varied : NoRepeats w.events

  bump-IsTidy :
      {limit : ℕ} (now : ℕ) (type : String) (w : WorldModel V)
      → w.history_limit ≡ limit
      → length w.events ≤ limit
      → NoRepeats w.events
      → IsTidy limit (bump now type w)
  bump-IsTidy now type w l b n =
      let (e, k) = bump_events now type w in
      record { same_limit = rw k l; bounded = rw e b; varied = rw e n }

  record_event-IsTidy :
      (limit now : ℕ) (type : String) (detail : Dict String V) (w : WorldModel V)
      → IsTidy limit w
      → IsTidy limit (record_event same now type detail w)
  unfolding record_event
  record_event-IsTidy limit now type detail w t =
      elim (Bool-cases (repeats_last same type detail w.events)) [
        | inl q ↦ rw q t
        | inr q ↦ rw q (
            bump-IsTidy now _ _ t.same_limit
              (rw t.same_limit (append_bounded-length limit _ w.events))
              (NoRepeats-drop (length (w.events ++ _ ∷ []) - w.history_limit) _
                (NoRepeats-append w.events _ q t.varied)))
      ]

module _ {V : Type 0} (serializable : V → V) (same : Dict String V → Dict String V → Bool) where
  apply-IsTidy :
      (limit : ℕ) (op : Op V) (w : WorldModel V)
      → IsTidy same limit w
      → IsTidy same limit (apply serializable same op w)
  unfolding apply set_fact observe infer forget_inferred add_entity register_component
      component_status
  apply-IsTidy limit (setting now key v) w t =
      bump-IsTidy same now _ _ t.same_limit t.bounded t.varied
  apply-IsTidy limit (observing now key v source provenance) w t =
      bump-IsTidy same now _ _ t.same_limit t.bounded t.varied
  apply-IsTidy limit (inferring now key v c source) w t =
      bump-IsTidy same now _ _ t.same_limit t.bounded t.varied
  apply-IsTidy limit (forgetting key) w t = record {
    same_limit = t.same_limit;
    bounded = t.bounded;
    varied = t.varied;
  }
  apply-IsTidy limit (entering now id kind attrs) w t =
      bump-IsTidy same now _ _ t.same_limit t.bounded t.varied
  apply-IsTidy limit (recording now type detail) w t =
      record_event-IsTidy same limit now type detail w t
  apply-IsTidy limit (registering now name meta) w t =
      bump-IsTidy same now _ _ t.same_limit t.bounded t.varied
  apply-IsTidy limit (reporting now name status meta) w t =
      bump-IsTidy same now _ _ t.same_limit t.bounded t.varied

  runs-IsTidy :
      (limit : ℕ) (ops : List (Op V)) (w : WorldModel V)
      → IsTidy same limit w
      → IsTidy same limit (run serializable same ops w)
  unfolding run
  runs-IsTidy limit [] w t = t
  runs-IsTidy limit (op ∷ ops) w t =
      runs-IsTidy limit ops (apply serializable same op w) (apply-IsTidy limit op w t)

  -- After any sequence of calls on a new world model the history holds at most its limit of events,
  -- and no event in it has the type and the detail of the event before it.
  pub run-IsTidy :
      (router : Bool) (limit : ℕ) (ops : List (Op V))
      → IsTidy same limit (run serializable same ops (init router limit))
  run-IsTidy router limit ops =
      runs-IsTidy limit ops (init router limit)
        (record { same_limit = refl; bounded = omega arith; varied = tt })

  -- The router is there and has been told the versions from 1 to the current one, each once.
  pub record IsAnnounced (w : WorldModel V) : Type 0 where
    pub routed : w.has_router ≡ true
    pub versions : map (λ p. p.1.version) w.emitted ≡ upto w.version

  bump-IsAnnounced :
      (now : ℕ) (type : String) (w : WorldModel V)
      → w.has_router ≡ true
      → map (λ p. p.1.version) w.emitted ≡ upto w.version
      → IsAnnounced (bump now type w)
  unfolding bump snapshot
  bump-IsAnnounced now type w h e =
      rw h (record { routed = refl; versions = simp (map-append, e, upto_next w.version) })

  apply-IsAnnounced :
      (op : Op V) (w : WorldModel V) → IsAnnounced w → IsAnnounced (apply serializable same op w)
  unfolding apply set_fact observe infer forget_inferred add_entity record_event register_component
      component_status
  apply-IsAnnounced (setting now key v) w a = bump-IsAnnounced now _ _ a.routed a.versions
  apply-IsAnnounced (observing now key v source provenance) w a =
      bump-IsAnnounced now _ _ a.routed a.versions
  apply-IsAnnounced (inferring now key v c source) w a =
      bump-IsAnnounced now _ _ a.routed a.versions
  apply-IsAnnounced (forgetting key) w a = record { routed = a.routed; versions = a.versions }
  apply-IsAnnounced (entering now id kind attrs) w a = bump-IsAnnounced now _ _ a.routed a.versions
  apply-IsAnnounced (recording now type detail) w a =
      elim (Bool-cases (repeats_last same type detail w.events)) [
        | inl q ↦ rw q a
        | inr q ↦ rw q (bump-IsAnnounced now _ _ a.routed a.versions)
      ]
  apply-IsAnnounced (registering now name meta) w a = bump-IsAnnounced now _ _ a.routed a.versions
  apply-IsAnnounced (reporting now name status meta) w a =
      bump-IsAnnounced now _ _ a.routed a.versions

  runs-IsAnnounced :
      (ops : List (Op V)) (w : WorldModel V)
      → IsAnnounced w
      → IsAnnounced (run serializable same ops w)
  unfolding run
  runs-IsAnnounced [] w a = a
  runs-IsAnnounced (op ∷ ops) w a =
      runs-IsAnnounced ops (apply serializable same op w) (apply-IsAnnounced op w a)

  -- After any sequence of calls on a new world model with an event router, the snapshots the router
  -- was given carry the versions from 1 to the current one, in order and each once.
  pub run-IsAnnounced :
      (limit : ℕ) (ops : List (Op V)) → IsAnnounced (run serializable same ops (init true limit))
  run-IsAnnounced limit ops =
      runs-IsAnnounced ops (init true limit) (record { routed = refl; versions = refl })
