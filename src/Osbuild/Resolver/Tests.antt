-- ===== src/Osbuild/Resolver/Tests.antt =====
-- A small index of packages, its closures, and the theorem about one.
use aioperator.Prelude.{
  ◌≡◌, ◌≢◌, refl, Option, none, List, [], ◌∷◌, map, String, ℤ, codes, sort_insert, sort_by,
}
use aioperator.Dict.{get, put, string_eq}
use aioperator.Osbuild.Version.{
  Text, Constraint, satisfied_by, cmp_text, partition, add_char, pieces, cmp_piece, cmp_pieces,
  cmp_component, cmp_rest, split_version, vercmp,
}
use aioperator.Osbuild.Resolver.{
  PackageRecord, DependencyResolver, provide, index, init, pick, Resolution, resolved, unsatisfied,
  out_of_fuel, satisfied_by_chosen, try_alternative, choose, expand, closure, resolve,
}
use aioperator.Osbuild.Resolver.Measure.{resolve_ends}

program : Unit {0}
unfolding get put sort_insert sort_by satisfied_by cmp_text partition add_char pieces cmp_piece
    cmp_pieces cmp_component cmp_rest split_version vercmp provide index init pick
    satisfied_by_chosen try_alternative choose expand closure resolve
program = tt

abbrev int : Text → Option ℤ
int t = none

abbrev any_version : String → Constraint
any_version name = record { name = name; operator = ""; version = [] }

abbrev at_least : String → Text → Constraint
at_least name version = record { name = name; operator = ">="; version = version }

abbrev pkg : String → Text → List (List Constraint) → List String → PackageRecord
pkg name version depends provides = record {
  package_name = name;
  version = version;
  architecture = "arm64";
  depends = depends;
  provides = provides;
}

abbrev tables : DependencyResolver
tables =
    init
      (pkg "base" (codes "1")
          ((any_version "awk" ∷ []) ∷ (at_least "libc" (codes "2.30") ∷ []) ∷ []) []
        ∷ pkg "mawk" (codes "1.3") [] ("awk" ∷ [])
        ∷ pkg "libc" (codes "2.9") [] []
        ∷ pkg "libc" (codes "2.31") [] []
        ∷ [])
      "arm64"

abbrev packages : Resolution → List String
packages (resolved ps) = map (λ p. p.package_name) ps
packages (unsatisfied name) = "?" ∷ name ∷ []
packages out_of_fuel = "!" ∷ []

-- The greatest version as a text is 2.9, so the constraint on 2.30 fails and `libc` is left out.
run_tests :
    (packages (resolve int ("base" ∷ []) tables) ≡ "base" ∷ "mawk" ∷ [])
    × (packages (resolve int ("base" ∷ "vim" ∷ []) tables) ≡ "?" ∷ "vim" ∷ [])
unfolding program
run_tests = (refl, refl)

resolve_ends_example : resolve int ("base" ∷ []) tables ≢ out_of_fuel
resolve_ends_example = resolve_ends int ("base" ∷ []) tables
