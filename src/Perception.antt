-- ===== src/Perception.antt =====
-- buster/perception/base.py: the hub of the sensors. A sensor is what its `observe` answers, `none` when
-- it raises; observations are of any type `V`, and `failed` is `{"error": "sensor failed"}`.
mod Tests
use aioperator.Prelude.{
  ℕ, Option, none, some, List, [], ◌∷◌, String, str_eq, eq_iff, if◌then◌else◌, ◌≡◌, ◌≢◌, refl, ap,
  sym, ◌∙◌, sort_by, Bool, true, false, get_or, map, inl, inr, Bool-cases, arith,
}
use aioperator.Dict.{Dict, get, put, keys, string_eq}
use aioperator.Dict.Laws.{get-put}
use aioperator.Dict.Distinct.{IsDistinct, IsDistinct-put}

module _ {V : Type 0} where
  unfoldable pub register : String → Option V → Dict String (Option V) → Dict String (Option V)
  register name sensor hub = put name sensor hub

  unfoldable pub get_sensor : String → Dict String (Option V) → Option (Option V)
  get_sensor name hub = get name hub

  unfoldable pub names : (String → String → Bool) → Dict String (Option V) → List String
  names less hub = sort_by less (keys hub)

  -- The loop of `snapshot`.
  unfoldable pub observe_each : V → Dict String (Option V) → Dict String V → Dict String V
  observe_each failed [] seen = seen
  observe_each failed ((name, sensor) ∷ hub) seen =
      observe_each failed hub (put name (get_or sensor failed) seen)

  unfoldable pub snapshot : V → Dict String (Option V) → Dict String V
  unfolding observe_each
  snapshot failed hub = observe_each failed hub []

  unfoldable pub shutdown : Dict String (Option V) → Dict String (Option V)
  shutdown hub = []

  -- What the snapshot has under a name.
  abbrev pub seen_as : V → Option (Option V) → Option V → Option V
  seen_as failed none before = before
  seen_as failed (some sensor) before = some (get_or sensor failed)

  get-observe_each :
      (failed : V) (hub : Dict String (Option V)) (seen : Dict String V) (name : String)
      → IsDistinct hub
      → get name (observe_each failed hub seen) ≡ seen_as failed (get name hub) (get name seen)
  unfolding observe_each get
  get-observe_each failed [] seen name v = refl
  get-observe_each failed ((n, sensor) ∷ hub) seen name v =
      get-observe_each failed hub (put n (get_or sensor failed) seen) name v.1
      ∙ ap (seen_as failed (get name hub)) (get-put n name (get_or sensor failed) seen)
      ∙ elim (Bool-cases (str_eq n name)) [
        | inl q ↦
            let e : get name hub ≡ none = ap (λ k. get k hub) (sym ((eq_iff n name).0 q)) ∙ v.0 in
            rw (e, q) refl
        | inr q ↦ rw q refl
      ]

  -- A snapshot has an observation of every registered sensor and of no other; a sensor that raises
  -- shows as failed and changes nothing for the others.
  pub get-snapshot :
      (failed : V) (hub : Dict String (Option V)) (name : String)
      → IsDistinct hub
      → get name (snapshot failed hub) ≡ seen_as failed (get name hub) none
  unfolding snapshot get
  get-snapshot failed hub name v = get-observe_each failed hub [] name v
