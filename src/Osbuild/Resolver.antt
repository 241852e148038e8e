-- ===== src/Osbuild/Resolver.antt =====
-- buster/osbuild/resolver.py: the tables of the candidates and the closure of a set of seeds. A record
-- has its dependency groups and provided names parsed. `int` is Python's.
pub mod Measure
mod Tests
use aioperator.Prelude.{
  ℕ, zero, suc, ◌+◌, Bool, true, false, not, ◌&&◌, ◌||◌, Option, none, some, List, [], ◌∷◌, ◌++◌,
  map, String, str_eq, if◌then◌else◌, any, first, keep, length, get_or, is_some, ℤ, sort_by,
}
use aioperator.Dict.{Dict, get, put, has, keys, string_eq}
use aioperator.Osbuild.Version.{Text, Sign, less, same, greater, cmp_text, Constraint, satisfied_by}

pub record PackageRecord : Type 0 where
  pub package_name : String
  pub version : Text
  pub architecture : String
  pub depends : List (List Constraint)
  pub provides : List String

pub record DependencyResolver : Type 0 where
  pub architecture : String
  pub candidates : Dict String (List PackageRecord)
  pub providers : Dict String (List PackageRecord)

-- `self.providers.setdefault(virtual, []).append(record)` for each name.
unfoldable pub provide :
    PackageRecord
    → List String
    → Dict String (List PackageRecord)
    → Dict String (List PackageRecord)
provide record' [] d = d
provide record' (name ∷ names) d =
    provide record' names (put name (get_or (get name d) [] ++ record' ∷ []) d)

-- The loop of `__init__`.
unfoldable pub index : List PackageRecord → DependencyResolver → DependencyResolver
unfolding provide
index [] r = r
index (p ∷ records) r = index records (
    if str_eq p.architecture r.architecture || str_eq p.architecture "all"
    then record r {
      candidates =
          put p.package_name (get_or (get p.package_name r.candidates) [] ++ p ∷ []) r.candidates;
      providers = provide p p.provides r.providers;
    }
    else r)

unfoldable pub init : List PackageRecord → String → DependencyResolver
unfolding index
init records architecture =
    index records (record { architecture = architecture; candidates = []; providers = [] })

unfoldable pub available : String → DependencyResolver → Bool
available name r = has name r.candidates || has name r.providers

abbrev pub newer : PackageRecord → PackageRecord → Bool
newer a b = elim (cmp_text b.version a.version) [ less ↦ true | same ↦ false | greater ↦ false ]

abbrev pub head : List PackageRecord → Option PackageRecord
head [] = none
head (p ∷ ps) = some p

-- The greatest version as a text, or a package that provides the name and is a candidate.
unfoldable pub pick : String → DependencyResolver → Option PackageRecord
pick name r = elim (head (sort_by newer (get_or (get name r.candidates) []))) [
  | some p ↦ some p
  | none ↦ first (λ p. has p.package_name r.candidates) (get_or (get name r.providers) [])
]

abbrev pub is_in : String → List String → Bool
is_in name names = any names (λ n. str_eq n name)

pub data Resolution : Type 0 where
  resolved : List PackageRecord → Resolution
  unsatisfied : String → Resolution
  out_of_fuel : Resolution

-- The packages of the tables, which are all that `pick` can give.
abbrev pub pooled : Dict String (List PackageRecord) → List PackageRecord
pooled [] = []
pooled ((name, ps) ∷ d) = ps ++ pooled d

abbrev pub names : DependencyResolver → List String
names r = map (λ p. p.package_name) (pooled r.candidates ++ pooled r.providers)

module _ (int : Text → Option ℤ) where
  unfoldable pub satisfied_by_chosen : Dict String PackageRecord → Constraint → Bool
  satisfied_by_chosen chosen alt = elim (get alt.name chosen) [
    | none ↦ false
    | some p ↦ if str_eq alt.operator "" then true else satisfied_by int alt p.version
  ]

  -- An alternative with what `pick` gives for it: what is queued, and the names that ever were. `rest`
  -- is the outcome of the alternatives behind it.
  unfoldable pub try_alternative :
      Constraint
      → Option PackageRecord
      → Dict String PackageRecord
      → (queue queued : List String) (rest : List String × List String) → List String × List String
  try_alternative alt none chosen queue queued rest = rest
  try_alternative alt (some p) chosen queue queued rest =
      if not (str_eq alt.operator "") && not (satisfied_by int alt p.version)
      then rest
      else if not (has p.package_name chosen) && not (is_in p.package_name queued)
      then (queue ++ p.package_name ∷ [], p.package_name ∷ queued)
      else (queue, queued)

  -- The loop over the alternatives of a group.
  unfoldable pub choose :
      DependencyResolver
      → Dict String PackageRecord
      → List Constraint
      → (queue queued : List String) → List String × List String
  unfolding try_alternative
  choose r chosen [] queue queued = (queue, queued)
  choose r chosen (alt ∷ group) queue queued =
      try_alternative alt (pick alt.name r) chosen queue queued (choose r chosen group queue queued)

  -- The loop over the groups of a record.
  unfoldable pub expand :
      DependencyResolver
      → Dict String PackageRecord
      → List (List Constraint)
      → (queue queued : List String) → List String × List String
  unfolding choose satisfied_by_chosen
  expand r chosen [] queue queued = (queue, queued)
  expand r chosen (group ∷ groups) queue queued =
      if any group (satisfied_by_chosen chosen)
      then expand r chosen groups queue queued
      else (let (queue', queued') = choose r chosen group queue queued in
          expand r chosen groups queue' queued')

  -- The loop of `resolve`, each round of which takes one unit of fuel.
  unfoldable pub closure :
      ℕ
      → DependencyResolver
      → Dict String PackageRecord
      → (order : List PackageRecord) (queue queued : List String) → Resolution
  closure fuel r chosen order [] queued = resolved order
  closure zero r chosen order (name ∷ queue) queued = out_of_fuel
  closure (suc fuel) r chosen order (name ∷ queue) queued = elim (pick name r) [
    | none ↦ unsatisfied name
    | some p ↦
        let chosen' : Dict String PackageRecord = put p.package_name p chosen in
        let more : List String × List String = expand r chosen' p.depends queue queued in
        let again : Resolution = closure fuel r chosen' (order ++ p ∷ []) more.0 more.1 in
        let skipped : Resolution = closure fuel r chosen order queue queued in
        if has p.package_name chosen then skipped else again
  ]

  unfoldable pub resolve : List String → DependencyResolver → Resolution
  unfolding closure
  resolve seeds r = closure (length seeds + length (names r)) r [] [] seeds seeds
