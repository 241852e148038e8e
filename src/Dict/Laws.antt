-- ===== src/Dict/Laws.antt =====
-- What can be looked up after an operation of a dictionary.
use aioperator.Prelude.{
  ◌≡◌, ◌⊎◌, inl, inr, Bool, Bool-cases, first, refl, true, false, none, some, [], ◌∷◌,
  if◌then◌else◌, arith,
}
use aioperator.Dict.{Eq, Dict, get, put, remove, values}

pub beq_refl {ℓ} : {K : Type ℓ} ⦃e : Eq K⦄ (k : K) → e.beq k k ≡ true
beq_refl ⦃e⦄ k = (e.beq_iff k k).1 refl

module _ {ℓ κ} {K : Type ℓ} {V : Type κ} ⦃e : Eq K⦄ where
  pub get-put :
      (k j : K) (v : V) (d : Dict K V) → get j (put k v d) ≡ (if e.beq k j then some v else get j d)
  unfolding get put
  get-put k j v [] = refl
  get-put k j v ((i, w) ∷ d) =
      ground (arith, e.beq_iff i k, e.beq_iff i j, e.beq_iff k j, get-put k j v d)

  pub get-put_self : (k : K) (v : V) (d : Dict K V) → get k (put k v d) ≡ some v
  get-put_self k v d = simp (get-put, beq_refl)

  pub get-remove :
      (k j : K) (d : Dict K V) → get j (remove k d) ≡ (if e.beq k j then none else get j d)
  unfolding get remove
  get-remove k j [] = ground arith
  get-remove k j ((i, w) ∷ d) =
      ground (arith, e.beq_iff i k, e.beq_iff i j, e.beq_iff k j, get-remove k j d)

  pub get-remove_self : (k : K) (d : Dict K V) → get k (remove k d) ≡ none
  get-remove_self k d = simp (get-remove, beq_refl)

pub ruleset dict_laws = (get-put, get-remove, beq_refl)

module _ {ℓ κ} {K : Type ℓ} {V : Type κ} ⦃e : Eq K⦄ where
  -- What is found behind an assignment is the assigned value or was there before.
  pub get-put-cases :
      (k j : K) (v w : V) (d : Dict K V)
      → get j (put k v d) ≡ some w
      → ((k ≡ j) × (v ≡ w)) ⊎ (get j d ≡ some w)
  get-put-cases k j v w d h = elim (Bool-cases (e.beq k j)) [
    | inl b ↦ inl ((e.beq_iff k j).0 b, ground (arith, get-put k j v d))
    | inr b ↦ inr (ground (arith, get-put k j v d))
  ]

  -- If no value passes a test, then none that is found does.
  pub get-first-none :
      (p : V → Bool) (k : K) (v : V) (d : Dict K V)
      → first p (values d) ≡ none
      → get k d ≡ some v
      → p v ≡ false
  unfolding get
  get-first-none p k v [] f h = ground arith
  get-first-none p k v ((j, w) ∷ d) f h = ground (arith, get-first-none p k v d)
