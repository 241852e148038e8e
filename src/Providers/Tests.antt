-- ===== src/Providers/Tests.antt =====
-- A registry of two providers, and the theorem about its default.
use aioperator.Prelude.{ℕ, ◌≡◌, refl, true, false, none, some, [], ◌∷◌}
use aioperator.Dict.{get, put}
use aioperator.Providers.{AiProviderRegistry, init, register, get_provider, shutdown}
use aioperator.Providers.Default.{Reach, starts, registers}

program : Unit {0}
unfolding get put init register get_provider shutdown
program = tt

abbrev one : AiProviderRegistry ℕ
one = record { providers = ("local", 1) ∷ []; default = some "local" }

abbrev two : AiProviderRegistry ℕ
two = record { providers = ("local", 1) ∷ ("remote", 2) ∷ []; default = some "local" }

two-Reach : Reach two
unfolding program
two-Reach = registers "remote" 2 false (registers "local" 1 true (starts refl) refl) refl

run_tests :
    (register "local" 3 true two ≡ none)
    × (get_provider none two ≡ some 1)
    × (get_provider (some "remote") two ≡ some 2)
    × (get_provider (some "") (shutdown two) ≡ none)
unfolding program
run_tests = (refl, refl, refl, refl)
