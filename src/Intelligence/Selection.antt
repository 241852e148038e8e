-- ===== src/Intelligence/Selection.antt =====
-- buster/intelligence/providers.py: the health of the model providers and the choice of one. `configured`
-- reads the property of a provider and `answers` says whether it lists a model; both are false where the
-- code catches an exception. `now` is the time of the call.
pub mod Registered
mod Tests
use aioperator.Prelude.{
  ℕ, ◌-◌, Bool, true, false, not, ◌&&◌, ◌||◌, Option, none, some, is_some, List, [], ◌∷◌, String,
  str_eq, if◌then◌else◌, ltb,
}
use aioperator.Dict.{Dict, get, has, string_eq}
use aioperator.Providers.{AiProviderRegistry, get_provider, names}

pub record ProviderIntelligence : Type 0 where
  pub remote_available : Option Bool
  pub last_checked : ℕ

pub record Health : Type 0 where
  pub registered : List String
  pub local_available : Bool
  pub remote_configured : Bool
  pub remote_available : Bool
  pub offline_capable : Bool
  pub checked_at : ℕ

abbrev pub is_given : {A : Type 0} → List A → Bool
is_given [] = false
is_given (x ∷ xs) = true

-- What is read of a provider that may not be registered.
abbrev pub of_provider : {P : Type 0} → (P → Bool) → Option P → Bool
of_provider f none = false
of_provider f (some p) = f p

module _ {P : Type 0} (less : String → String → Bool) (configured answers : P → Bool)
    (r : AiProviderRegistry P) where
  -- The answer that is kept for a minute.
  abbrev pub kept : (now : ℕ) → ProviderIntelligence → Option Bool
  kept now i = if ltb (now - i.last_checked) 60 then i.remote_available else none

  abbrev pub probed : (now : ℕ) → ProviderIntelligence → Option Bool → Bool × ProviderIntelligence
  unfolding get_provider
  probed now i (some b) = (b, i)
  probed now i none =
      let b = of_provider answers (get_provider (some "remote") r) in
      (b, record { remote_available = some b; last_checked = now })

  -- `_probe_remote`
  unfoldable pub probe_remote : (now : ℕ) → ProviderIntelligence → Bool × ProviderIntelligence
  unfolding probed
  probe_remote now i = probed now i (kept now i)

  abbrev pub remote_configured : Bool
  unfolding get_provider
  remote_configured =
      has "remote" r.providers && of_provider configured (get_provider (some "remote") r)

  abbrev pub any_local : Bool
  any_local = has "local" r.providers || is_given r.providers

  abbrev pub checked : (now : ℕ) → ProviderIntelligence → Bool × ProviderIntelligence
  unfolding probe_remote remote_configured
  checked now i = if remote_configured then probe_remote now i else (false, i)

  unfoldable pub health : (now : ℕ) → ProviderIntelligence → Health × ProviderIntelligence
  unfolding names checked
  health now i =
      let (available, after) = checked now i in
      (
        record {
          registered = names less r;
          local_available = any_local;
          remote_configured = remote_configured;
          remote_available = available;
          offline_capable = any_local;
          checked_at = after.last_checked;
        },
        after,
      )

  abbrev pub first_name : List String → String
  first_name [] = "local"
  first_name (n ∷ ns) = n

  abbrev pub by_health : Health → String
  by_health h =
      if h.remote_configured && h.remote_available
      then "remote"
      else if h.local_available
      then "local"
      else first_name (names less r)

  -- `select`; the goal is not used.
  unfoldable pub select :
      (prefer : String) (now : ℕ) → ProviderIntelligence → String × ProviderIntelligence
  unfolding health
  select prefer now i =
      if not (str_eq prefer "") && has prefer r.providers
      then (prefer, i)
      else (by_health (health now i).0, (health now i).1)
