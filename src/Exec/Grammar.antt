-- ===== src/Exec/Grammar.antt =====
-- Which arguments `exec_main` of buster/exec.py takes, and what it does with the others.
use mathlib.Core.Bool.{true≢false}
use mathlib.Core.Path.{subst}
use aioperator.Prelude.{
  ◌≡◌, refl, sym, ◌∙◌, ◌⊎◌, Bool, Bool-cases, inl, inr, true, false, ◌&&◌, ◌||◌, Option, List, [],
  ◌∷◌, String, str_eq, eq_iff, arith,
}
use aioperator.Dict.{string_eq}
use aioperator.Exec.{
  Daemon, usage, is_in, read_verbs, service_verbs, read_views, is_valid_service_name,
}
use aioperator.Exec.Entry.{exec_main, run_service, run_read, run_plain}

abbrev pub is_plain : String → Bool
is_plain verb = is_in verb read_verbs || is_in verb ("present" ∷ "deployment" ∷ [])

-- The calls of the bridge: a service verb with a service name, `read` with a view, and the other
-- verbs alone.
abbrev pub valid_call : List String → Bool
valid_call (verb ∷ []) = is_plain verb
valid_call (verb ∷ argument ∷ []) =
    (is_in verb service_verbs && is_valid_service_name argument)
    || (str_eq verb "read" && is_in argument read_views)
valid_call _ = false

service_cases :
    (verb : String)
    → is_in verb service_verbs ≡ true
    → (verb ≡ "service-start") ⊎ ((verb ≡ "service-restart") ⊎ (verb ≡ "service-status"))
service_cases verb h = ground (
  arith,
  eq_iff verb "service-start",
  eq_iff verb "service-restart",
  eq_iff verb "service-status",
)

-- No service verb is another verb.
abbrev IsApart : String → Type 0
IsApart verb = (is_plain verb ≡ false) × (str_eq verb "read" ≡ false)

service-IsApart : (verb : String) → is_in verb service_verbs ≡ true → IsApart verb
service-IsApart verb h = elim (service_cases verb h) [
  | inl e ↦ subst IsApart (sym e) (refl, refl)
  | inr (inl e) ↦ subst IsApart (sym e) (refl, refl)
  | inr (inr e) ↦ subst IsApart (sym e) (refl, refl)
]

read_apart :
    (verb : String)
    → str_eq verb "read" ≡ true
    → (is_in verb service_verbs ≡ false) × (is_plain verb ≡ false)
read_apart verb h =
    subst (λ v. (is_in v service_verbs ≡ false) × (is_plain v ≡ false))
      (sym ((eq_iff verb "read").0 h)) (refl, refl)

-- By the family of the verb.
pub data Family (verb : String) : Type 0 where
  of_service :
      is_in verb service_verbs ≡ true
      → is_plain verb ≡ false
      → str_eq verb "read" ≡ false
      → Family verb
  of_read :
      is_in verb service_verbs ≡ false
      → is_plain verb ≡ false
      → str_eq verb "read" ≡ true
      → Family verb
  of_plain :
      is_in verb service_verbs ≡ false
      → is_plain verb ≡ true
      → str_eq verb "read" ≡ false
      → Family verb
  of_none :
      is_in verb service_verbs ≡ false
      → is_plain verb ≡ false
      → str_eq verb "read" ≡ false
      → Family verb

pub family : (verb : String) → Family verb
family verb = elim (Bool-cases (is_in verb service_verbs)) [
  | inl h ↦ of_service h (service-IsApart verb h).0 (service-IsApart verb h).1
  | inr h ↦ elim (Bool-cases (str_eq verb "read")) [
    | inl r ↦ of_read h (read_apart verb r).1 r
    | inr r ↦ elim (Bool-cases (is_plain verb)) [ inl p ↦ of_plain h p r | inr p ↦ of_none h p r ]
  ]
]

valid_service :
    (verb argument : String)
    → is_in verb service_verbs ≡ true
    → valid_call (verb ∷ argument ∷ []) ≡ false
    → is_valid_service_name argument ≡ false
valid_service verb argument h v = ground arith

valid_read :
    (verb argument : String)
    → is_in verb service_verbs ≡ false
    → str_eq verb "read" ≡ true
    → valid_call (verb ∷ argument ∷ []) ≡ false
    → is_in argument read_views ≡ false
valid_read verb argument h r v = ground arith

module _ {J : Type 0} (repr : Option String → String) (repr_view : String) where
  -- A call outside the grammar ends with code 2; no document is printed, and neither the installation
  -- nor the daemon is reached.
  pub exec_main-refused :
      (args : List String) (d : Daemon J)
      → valid_call args ≡ false
      → exec_main repr repr_view args d ≡ usage
  unfolding exec_main run_service run_read run_plain
  exec_main-refused [] d v = refl
  exec_main-refused (verb ∷ []) d v = elim (family verb) [
    | of_service h p r ↦ rw h refl
    | of_read h p r ↦ rw (h, r) refl
    | of_plain h p r ↦ absurd (true≢false (sym p ∙ v))
    | of_none h p r ↦ rw (h, r, p) refl
  ]
  exec_main-refused (verb ∷ argument ∷ []) d v = elim (family verb) [
    | of_service h p r ↦ rw h (rw (valid_service verb argument h v) refl)
    | of_read h p r ↦ rw (h, r) (rw (valid_read verb argument h r v) refl)
    | of_plain h p r ↦ rw (h, r, p) refl
    | of_none h p r ↦ rw (h, r, p) refl
  ]
  exec_main-refused (verb ∷ argument ∷ more ∷ rest) d v = elim (family verb) [
    | of_service h p r ↦ rw h refl
    | of_read h p r ↦ rw (h, r) refl
    | of_plain h p r ↦ rw (h, r, p) refl
    | of_none h p r ↦ rw (h, r, p) refl
  ]
