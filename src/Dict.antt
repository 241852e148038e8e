-- ===== src/Dict.antt =====
-- Python's `dict`: entries in the order in which their keys were first set. An assignment to a
-- key that is there keeps its place; a new key goes last.
pub mod Laws
pub mod Order
pub mod Distinct
pub mod Reload
use aioperator.Prelude.{
  Bool, true, ◌≡◌, ◌↔◌, Option, none, some, List, [], ◌∷◌, map, if◌then◌else◌, ℕ, ◌==◌, ==_iff,
  String, str_eq, eq_iff, is_some,
}
use aioperator.Prelude.Strings.{Text, same_text}
use aioperator.Prelude.Strings.Lines.{same_text_iff}

-- `==` on keys.
pub record Eq {ℓ} (K : Type ℓ) : Type ℓ where
  pub beq : K → K → Bool
  pub beq_iff : (a b : K) → (beq a b ≡ true) ↔ (a ≡ b)

instance abbrev pub nat_eq : Eq ℕ
nat_eq = record { beq = ◌==◌; beq_iff = ==_iff }

instance abbrev pub string_eq : Eq String
string_eq = record { beq = str_eq; beq_iff = eq_iff }

instance abbrev pub text_eq : Eq Text
text_eq = record { beq = same_text; beq_iff = same_text_iff }

abbrev pub Dict {ℓ κ} : Type ℓ → Type κ → Type (ℓ ⊔ κ)
Dict K V = List (K × V)

module _ {ℓ κ} {K : Type ℓ} {V : Type κ} where
  abbrev pub keys : Dict K V → List K
  keys d = map (λ e. e.0) d

  abbrev pub values : Dict K V → List V
  values d = map (λ e. e.1) d

  module _ ⦃e : Eq K⦄ where
    -- `d.get(k)`
    unfoldable pub get : K → Dict K V → Option V
    get k [] = none
    get k ((j, v) ∷ d) = if e.beq j k then some v else get k d

    -- `d[k] = v`
    unfoldable pub put : K → V → Dict K V → Dict K V
    put k v [] = (k, v) ∷ []
    put k v ((j, w) ∷ d) = if e.beq j k then (j, v) ∷ d else (j, w) ∷ put k v d

    -- `d.pop(k, None)`
    unfoldable pub remove : K → Dict K V → Dict K V
    remove k [] = []
    remove k ((j, v) ∷ d) = let rest = remove k d in if e.beq j k then rest else (j, v) ∷ rest

    -- `k in d`
    abbrev pub has : K → Dict K V → Bool
    has k d = is_some (get k d)
