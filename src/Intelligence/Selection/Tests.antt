-- ===== src/Intelligence/Selection/Tests.antt =====
-- Choices of a provider, and the theorem about them.
use aioperator.Prelude.{ℕ, ◌≡◌, refl, ◌==◌, Bool, true, false, none, some, [], ◌∷◌, String}
use aioperator.Dict.{get, has, string_eq}
use aioperator.Providers.{AiProviderRegistry, get_provider, names}
use aioperator.Intelligence.Selection.{ProviderIntelligence, probe_remote, health, select}
use aioperator.Intelligence.Selection.Registered.{select-has}

program : Unit {0}
unfolding get get_provider names probe_remote health select
program = tt

abbrev both : AiProviderRegistry ℕ
both = record { providers = ("local", 0) ∷ ("remote", 1) ∷ []; default = some "local" }

abbrev fresh : ProviderIntelligence
fresh = record { remote_available = none; last_checked = 0 }

abbrev is_remote : ℕ → Bool
is_remote n = n == 1

abbrev never : ℕ → Bool
never n = false

abbrev less : String → String → Bool
less a b = false

-- The answer of the probe is kept for a minute; a name is chosen that is not registered.
run_tests :
    ((select less is_remote is_remote both "" 100 fresh).0 ≡ "remote")
    × ((select less is_remote never both "" 100 fresh).0 ≡ "local")
    × ((select less is_remote is_remote both "" 50
          (record { remote_available = some false; last_checked = 9 })).0
        ≡ "local")
    × ((select less is_remote never
          (record { providers = ("other", 0) ∷ []; default = none })
          ""
          9
          fresh).0
        ≡ "local")
unfolding program
run_tests = (refl, refl, refl, refl)

select-has_example :
    has (select less is_remote never both "third" 100 fresh).0 both.providers ≡ true
unfolding program
select-has_example = select-has less is_remote never both refl "third" 100 fresh
