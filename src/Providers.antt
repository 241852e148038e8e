-- ===== src/Providers.antt =====
-- buster/ai_providers/registry.py: the registry of the model providers. A provider is of any type `P`.
pub mod Default
mod Tests
use mathlib.Core.Option.{none-ne-some}
use aioperator.Prelude.{
  ℕ, Bool, true, false, ◌||◌, not, Bool-cases, Option-cases, inl, inr, Option, none, some, is_some,
  List, [], ◌∷◌, String, str_eq, eq_refl, ◌≡◌, ◌≢◌, ◌↔◌, refl, ap, sym, ◌∙◌, if◌then◌else◌, sort_by,
  arith,
}
use aioperator.Dict.{Dict, get, put, has, keys, string_eq}
use aioperator.Dict.Laws.{get-put, get-put_self}

pub record AiProviderRegistry (P : Type 0) : Type 0 where
  pub providers : Dict String P
  pub default : Option String

-- `name or self._default`
abbrev pub resolved : Option String → Option String → Option String
resolved none d = d
resolved (some name) d = if str_eq name "" then d else some name

-- `default or self._default is None`
abbrev pub chosen : Bool → String → Option String → Option String
chosen default name none = some name
chosen default name (some old) = if default then some name else some old

module _ {P : Type 0} where
  unfoldable pub init : AiProviderRegistry P
  init = record { providers = []; default = none }

  -- `none` is the ValueError for a name that is taken.
  unfoldable pub register : String → P → Bool → AiProviderRegistry P → Option (AiProviderRegistry P)
  register name provider default r =
      if has name r.providers
      then none
      else some (record {
        providers = put name provider r.providers;
        default = chosen default name r.default;
      })

  abbrev pub provider_of : Option String → Dict String P → Option P
  provider_of none d = none
  provider_of (some name) d = get name d

  -- `none` is the ProviderNotFoundError.
  unfoldable pub get_provider : Option String → AiProviderRegistry P → Option P
  get_provider name r = provider_of (resolved name r.default) r.providers

  unfoldable pub names : (String → String → Bool) → AiProviderRegistry P → List String
  names less r = sort_by less (keys r.providers)

  unfoldable pub shutdown : AiProviderRegistry P → AiProviderRegistry P
  shutdown r = record { providers = []; default = none }
