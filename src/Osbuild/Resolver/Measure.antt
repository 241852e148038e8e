-- ===== src/Osbuild/Resolver/Measure.antt =====
-- The fuel of `resolve`: each round takes a name off the queue, and a package is queued at most once.
use mathlib.Core.Path.{subst}
use mathlib.Core.Option.{some-injective}
use aioperator.Prelude.{
  ℕ, zero, suc, ◌+◌, ◌≤◌, ◌≡◌, ◌≢◌, refl, ap, sym, ◌∙◌, Bool, Bool-cases, Option-cases, inl, inr,
  true, false, not, ◌&&◌, ◌||◌, Option, none, some, List, [], ◌∷◌, ◌++◌, map, String, str_eq,
  eq_iff, eq_refl, any, first, keep, length, length-append, get_or, ℤ, arith, sort_by, sort_by-perm,
  any-append, any-perm, length-keep-le,
}
use aioperator.Dict.{Dict, get, put, has, string_eq}
use aioperator.Osbuild.Version.{Text, Constraint, satisfied_by}
use aioperator.Osbuild.Resolver.{
  PackageRecord, DependencyResolver, pick, newer, head, is_in, out_of_fuel, satisfied_by_chosen,
  try_alternative, choose, expand, closure, pooled, names, resolve,
}

-- How many of the names were never queued.
abbrev unqueued : List String → List String → ℕ
unqueued all queued = length (keep (λ n. not (is_in n queued)) all)

-- A name that is queued leaves the count of the others.
unqueued-le :
    (all queued : List String) (n : String) → unqueued all (n ∷ queued) ≤ unqueued all queued
unqueued-le [] queued n = omega arith
unqueued-le (m ∷ all) queued n = ground (arith, unqueued-le all queued n)

unqueued-lt_head :
    (all queued : List String) (n : String)
    → is_in n queued ≡ false
    → unqueued (n ∷ all) (n ∷ queued) + 1 ≤ unqueued (n ∷ all) queued
unqueued-lt_head all queued n q = ground (arith, eq_refl n, unqueued-le all queued n)

unqueued-lt :
    (all queued : List String) (n : String)
    → is_in n all ≡ true
    → is_in n queued ≡ false
    → unqueued all (n ∷ queued) + 1 ≤ unqueued all queued
unqueued-lt [] queued n a q = absurd (ground arith)
unqueued-lt (m ∷ all) queued n a q = elim (Bool-cases (str_eq m n)) [
  | inl e ↦
      subst (λ k. unqueued (k ∷ all) (n ∷ queued) + 1 ≤ unqueued (k ∷ all) queued)
        (sym ((eq_iff m n).0 e)) (unqueued-lt_head all queued n q)
  | inr e ↦ ground (arith, unqueued-lt all queued n)
]

-- Names of packages among records.
is_in-map :
    (n : String) (ps : List PackageRecord)
    → is_in n (map (λ p. p.package_name) ps) ≡ any ps (λ p. str_eq p.package_name n)
is_in-map n [] = refl
is_in-map n (p ∷ ps) = ap (λ b. str_eq p.package_name n || b) (is_in-map n ps)

any-pooled :
    (name : String) (f : PackageRecord → Bool) (d : Dict String (List PackageRecord))
    → any (get_or (get name d) []) f ≡ true
    → any (pooled d) f ≡ true
unfolding get
any-pooled name f [] h = h
any-pooled name f ((k, ps) ∷ d) h = ground (arith, any-append ps (pooled d) f, any-pooled name f d)

any-head :
    (ps : List PackageRecord) (p : PackageRecord)
    → head ps ≡ some p
    → any ps (λ q. str_eq q.package_name p.package_name) ≡ true
any-head [] p h = absurd (ground arith)
any-head (q ∷ ps) p h =
    rw
      (ap (λ r. str_eq r.package_name p.package_name) (some-injective q p h)
        ∙ eq_refl p.package_name)
      refl

any-first :
    (f : PackageRecord → Bool) (ps : List PackageRecord) (p : PackageRecord)
    → first f ps ≡ some p
    → any ps (λ q. str_eq q.package_name p.package_name) ≡ true
any-first f [] p h = absurd (ground arith)
any-first f (q ∷ ps) p h = elim (Bool-cases (f q)) [
  | inl e ↦ any-head (q ∷ ps) p (rw e at h)
  | inr e ↦ ground (arith, any-first f ps p (rw e at h))
]

any-sort_by :
    (ps : List PackageRecord) (p : PackageRecord)
    → head (sort_by newer ps) ≡ some p
    → any ps (λ q. str_eq q.package_name p.package_name) ≡ true
any-sort_by ps p h =
    sym (any-perm (λ q. str_eq q.package_name p.package_name) (sort_by-perm newer ps))
    ∙ any-head (sort_by newer ps) p h

is_in-names :
    (r : DependencyResolver) (n : String)
    → (any (pooled r.candidates) (λ q. str_eq q.package_name n)
        || any (pooled r.providers) (λ q. str_eq q.package_name n))
      ≡ true
    → is_in n (names r) ≡ true
is_in-names r n h =
    is_in-map n (pooled r.candidates ++ pooled r.providers)
    ∙ any-append (pooled r.candidates) (pooled r.providers) (λ q. str_eq q.package_name n)
    ∙ h

or_true : (a b : Bool) → b ≡ true → (a || b) ≡ true
or_true a b h = ground arith

-- What `pick` gives is a package of the tables.
pick-is_in :
    (name : String) (r : DependencyResolver) (p : PackageRecord)
    → pick name r ≡ some p
    → is_in p.package_name (names r) ≡ true
unfolding pick
pick-is_in name r p h =
    let cs = get_or (get name r.candidates) [] in
    let f : PackageRecord → Bool = λ q. str_eq q.package_name p.package_name in
    elim (Option-cases (head (sort_by newer cs))) [
      | inr (q, e) ↦
          let m = any-pooled name f r.candidates (any-sort_by cs p (e ∙ (rw (e, pick) at h))) in
          is_in-names r p.package_name (rw m refl)
      | inl e ↦
          let m = any-pooled name f r.providers (any-first _ _ p (rw (e, pick) at h)) in
          is_in-names r p.package_name
            (or_true (any (pooled r.candidates) f) (any (pooled r.providers) f) m)
    ]

-- A round of `choose` and `expand` puts no more into the queue than leaves the names never queued.
abbrev measure : DependencyResolver → List String × List String → ℕ
measure r (queue, queued) = length queue + unqueued (names r) queued

module _ (int : Text → Option ℤ) where
  try_alternative-le :
      (r : DependencyResolver) (alt : Constraint) (o : Option PackageRecord)
      (chosen : Dict String PackageRecord) (queue queued : List String)
      (rest : List String × List String)
      → ((p : PackageRecord) → o ≡ some p → is_in p.package_name (names r) ≡ true)
      → measure r rest ≤ measure r (queue, queued)
      → measure r (try_alternative int alt o chosen queue queued rest) ≤ measure r (queue, queued)
  unfolding try_alternative
  try_alternative-le r alt none chosen queue queued rest i h = h
  try_alternative-le r alt (some p) chosen queue queued rest i h =
      elim (Bool-cases (not (str_eq alt.operator "") && not (satisfied_by int alt p.version))) [
        | inl a ↦ rw a h
        | inr a ↦
            elim (Bool-cases
              (not (has p.package_name chosen) && not (is_in p.package_name queued))) [
                | inl b ↦
                    rw (a, b)
                      (omega (
                        arith,
                        length-append queue (p.package_name ∷ []),
                        unqueued-lt (names r) queued p.package_name (i p refl) (ground (arith, b)),
                      ))
                | inr b ↦ rw (a, b) (omega arith)
              ]
      ]

  choose-le :
      (r : DependencyResolver) (chosen : Dict String PackageRecord) (group : List Constraint)
      (queue queued : List String)
      → measure r (choose int r chosen group queue queued) ≤ measure r (queue, queued)
  unfolding choose
  choose-le r chosen [] queue queued = omega arith
  choose-le r chosen (alt ∷ group) queue queued =
      try_alternative-le r alt (pick alt.name r) chosen queue queued
        (choose int r chosen group queue queued) (λ p e. pick-is_in alt.name r p e)
        (choose-le r chosen group queue queued)

  expand-le :
      (r : DependencyResolver) (chosen : Dict String PackageRecord)
      (groups : List (List Constraint)) (queue queued : List String)
      → measure r (expand int r chosen groups queue queued) ≤ measure r (queue, queued)
  unfolding expand
  expand-le r chosen [] queue queued = omega arith
  expand-le r chosen (group ∷ groups) queue queued =
      elim (Bool-cases (any group (satisfied_by_chosen int chosen))) [
        | inl a ↦ rw (a, expand) (expand-le r chosen groups queue queued)
        | inr a ↦
            let next = choose int r chosen group queue queued in
            rw (a, expand)
              (omega (
                arith,
                choose-le r chosen group queue queued,
                expand-le r chosen groups next.0 next.1,
              ))
      ]

  closure-enough :
      (fuel : ℕ) (r : DependencyResolver) (chosen : Dict String PackageRecord)
      (order : List PackageRecord) (queue queued : List String)
      → measure r (queue, queued) ≤ fuel
      → closure int fuel r chosen order queue queued ≢ out_of_fuel
  unfolding closure
  closure-enough zero r chosen order [] queued m = λ e. ground (arith, e)
  closure-enough (suc fuel) r chosen order [] queued m = λ e. ground (arith, e)
  closure-enough zero r chosen order (name ∷ queue) queued m = absurd (ground (arith, m))
  closure-enough (suc fuel) r chosen order (name ∷ queue) queued m =
      elim (Option-cases (pick name r)) [
        | inl q ↦ rw (q, closure) (λ e. ground (arith, e))
        | inr (p, q) ↦ elim (Bool-cases (has p.package_name chosen)) [
          | inl b ↦
              rw (q, closure, b)
                (closure-enough fuel r chosen order queue queued (omega (arith, m)))
          | inr b ↦
              let chosen' = put p.package_name p chosen in
              let next = expand int r chosen' p.depends queue queued in
              rw (q, closure, b)
                (closure-enough fuel r chosen' (order ++ p ∷ []) next.0 next.1
                  (omega (arith, m, expand-le r chosen' p.depends queue queued)))
        ]
      ]

  -- `resolve` always ends: with as many rounds as there are seeds and packages it gives a closure, or
  -- the name that it cannot satisfy.
  pub resolve_ends :
      (seeds : List String) (r : DependencyResolver) → resolve int seeds r ≢ out_of_fuel
  unfolding resolve
  resolve_ends seeds r =
      closure-enough (length seeds + length (names r)) r [] [] seeds seeds
        (omega (arith, length-keep-le (λ n. not (is_in n seeds)) (names r)))
