-- ===== src/Intelligence/Selection/Registered.antt =====
-- buster/intelligence/providers.py: the provider that is chosen can be found.
use aioperator.Prelude.{
  ℕ, ◌≡◌, refl, Bool, true, not, ◌&&◌, Bool-cases, inl, inr, some, String, str_eq, arith,
}
use aioperator.Dict.{has, string_eq}
use aioperator.Providers.{AiProviderRegistry, get_provider}
use aioperator.Intelligence.Selection.{
  ProviderIntelligence, Health, any_local, remote_configured, of_provider, health, by_health,
  select,
}

and_left : (a b : Bool) → (a && b) ≡ true → a ≡ true
and_left a b h = ground (arith, h)

module _ {P : Type 0} (less : String → String → Bool) (configured answers : P → Bool)
    (r : AiProviderRegistry P) (has_local : has "local" r.providers ≡ true) where
  by_health-has :
      (h : Health)
      → (h.remote_configured ≡ true → has "remote" r.providers ≡ true)
      → h.local_available ≡ true
      → has (by_health less configured answers r h) r.providers ≡ true
  by_health-has h f l = elim (Bool-cases (h.remote_configured && h.remote_available)) [
    | inl q ↦ rw q (f (and_left h.remote_configured h.remote_available q))
    | inr q ↦ rw (q, l) has_local
  ]

  any_local-true : any_local less configured answers r ≡ true
  any_local-true = rw has_local refl

  health-has :
      (now : ℕ) (i : ProviderIntelligence)
      → has
          (by_health less configured answers r (health less configured answers r now i).0)
          r.providers
        ≡ true
  unfolding health remote_configured
  health-has now i =
      by_health-has (health less configured answers r now i).0
        (λ c.
          and_left (has "remote" r.providers)
            (of_provider configured (get_provider (some "remote") r)) c)
        any_local-true

  -- Where a local provider is registered, the name that `select` returns is that of a registered provider,
  -- whatever is preferred and whatever the remote provider answers.
  pub select-has :
      (prefer : String) (now : ℕ) (i : ProviderIntelligence)
      → has (select less configured answers r prefer now i).0 r.providers ≡ true
  unfolding select
  select-has prefer now i = elim (Bool-cases (not (str_eq prefer "") && has prefer r.providers)) [
    | inl q ↦ rw q (ground (arith, q))
    | inr q ↦ rw q (health-has now i)
  ]
