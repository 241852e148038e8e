-- ===== src/Providers/Default.antt =====
-- buster/ai_providers/registry.py: the default provider.
use mathlib.Core.Option.{none-ne-some, some-injective}
use mathlib.Core.Path.{subst}
use aioperator.Prelude.{
  Bool, true, false, Bool-cases, Option-cases, inl, inr, Option, none, some, [], String, ◌≡◌, ◌≢◌,
  ◌↔◌, refl, ap, sym, ◌∙◌, arith,
}
use aioperator.Dict.{Dict, get, put, has, string_eq}
use aioperator.Dict.Laws.{get-put, get-put_self}
use aioperator.Providers.{
  AiProviderRegistry, init, register, chosen, provider_of, get_provider, shutdown,
}

-- The states of a registry.
pub data Reach {P : Type 0} : AiProviderRegistry P → Type 0 where
  starts : {r : AiProviderRegistry P} → r ≡ init → Reach r
  registers :
      {r s : AiProviderRegistry P} (name : String) (p : P) (default : Bool)
      → Reach r
      → register name p default r ≡ some s
      → Reach s
  shuts : {r : AiProviderRegistry P} → Reach r → Reach (shutdown r)

-- The default is registered, and only an empty registry has none.
record IsSound {P : Type 0} (r : AiProviderRegistry P) : Type 0 where
  pub no_default : r.default ≡ none → r.providers ≡ []
  pub known : (d : String) → r.default ≡ some d → get d r.providers ≢ none

module _ {P : Type 0} where
  get-put-ne-none :
      (k j : String) (p : P) (d : Dict String P) → get j d ≢ none → get j (put k p d) ≢ none
  get-put-ne-none k j p d h e = ground (arith, get-put k j p d)

  abbrev added : String → P → Bool → AiProviderRegistry P → AiProviderRegistry P
  added name p default r = record {
    providers = put name p r.providers;
    default = chosen default name r.default;
  }

  known_self :
      (name d : String) (p : P) (ps : Dict String P)
      → some name ≡ some d
      → get d (put name p ps) ≢ none
  known_self name d p ps e h = none-ne-some p (
      sym h
      ∙ ap (λ k. get k (put name p ps)) (sym (some-injective name d e))
      ∙ get-put_self name p ps)

  added-IsSound :
      (name : String) (p : P) (default : Bool) (ps : Dict String P) (o : Option String)
      → ((d : String) → o ≡ some d → get d ps ≢ none)
      → IsSound (record { providers = put name p ps; default = chosen default name o })
  added-IsSound name p default ps none known = record {
    no_default = λ e. absurd (none-ne-some name (sym e));
    known = λ d e. known_self name d p ps e;
  }
  added-IsSound name p true ps (some old) known = record {
    no_default = λ e. absurd (none-ne-some name (sym e));
    known = λ d e. known_self name d p ps e;
  }
  added-IsSound name p false ps (some old) known = record {
    no_default = λ e. absurd (none-ne-some old (sym e));
    known = λ d e. get-put-ne-none name d p ps (known d e);
  }

  register-IsSound :
      (name : String) (p : P) (default : Bool) (r s : AiProviderRegistry P)
      → IsSound r
      → register name p default r ≡ some s
      → IsSound s
  unfolding register
  register-IsSound name p default r s v h = elim (Bool-cases (has name r.providers)) [
    | inl q ↦ absurd (none-ne-some s (rw q at h))
    | inr q ↦
        subst IsSound (some-injective (added name p default r) s (rw q at h))
          (added-IsSound name p default r.providers r.default v.known)
  ]

  Reach-IsSound : {r : AiProviderRegistry P} → Reach r → IsSound r
  unfolding init shutdown
  Reach-IsSound (starts e) =
      subst IsSound (sym e)
        (record { no_default = λ q. refl; known = λ d q. absurd (none-ne-some d q) })
  Reach-IsSound (registers name p default q h) =
      register-IsSound name p default _ _ (Reach-IsSound q) h
  Reach-IsSound (shuts q) = record {
    no_default = λ e. refl;
    known = λ d e. absurd (none-ne-some d e);
  }

  provider_of_nothing : (o : Option String) → provider_of {P = P} o [] ≡ none
  unfolding get
  provider_of_nothing none = refl
  provider_of_nothing (some d) = refl

  -- In every registry that registrations and shutdowns lead to, the provider asked for without a name
  -- is found exactly when there is one.
  pub get_provider-none :
      {r : AiProviderRegistry P} → Reach r → (get_provider none r ≡ none) ↔ (r.providers ≡ [])
  unfolding get_provider
  get_provider-none {r} q =
      let v = Reach-IsSound q in
      (
        λ h. elim (Option-cases r.default) [
          | inl e ↦ v.no_default e
          | inr (d, e) ↦ absurd (v.known d e (ap (λ o. provider_of o r.providers) (sym e) ∙ h))
        ],
        λ h. ap (provider_of r.default) h ∙ provider_of_nothing r.default,
      )
