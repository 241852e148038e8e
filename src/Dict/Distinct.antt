-- ===== src/Dict/Distinct.antt =====
-- Dictionaries have each key once, and then a filtered dictionary can be looked up.
use aioperator.Prelude.{
  ◌≡◌, refl, Bool, none, some, [], ◌∷◌, if◌then◌else◌, keep, arith, Bool-cases, inl, inr,
}
use aioperator.Dict.{Eq, Dict, get, put, remove}
use aioperator.Dict.Laws.{get-put, get-remove}

module _ {ℓ κ} {K : Type ℓ} {V : Type κ} ⦃e : Eq K⦄ where
  -- No key stands behind itself.
  abbrev pub IsDistinct : Dict K V → Type κ
  IsDistinct [] = Unit
  IsDistinct ((k, v) ∷ d) = (get k d ≡ none) × IsDistinct d

  pub IsDistinct-put : (k : K) (v : V) (d : Dict K V) → IsDistinct d → IsDistinct (put k v d)
  unfolding put
  IsDistinct-put k v [] h = (unfold get in refl, tt)
  IsDistinct-put k v ((j, w) ∷ d) h = elim (Bool-cases (e.beq j k)) [
    | inl q ↦ rw q h
    | inr q ↦
        rw q
          (ground (arith, get-put k j v d, e.beq_iff k j, e.beq_iff j k), IsDistinct-put k v d h.1)
  ]

  get-keep-none :
      (p : K × V → Bool) (k : K) (d : Dict K V) → get k d ≡ none → get k (keep p d) ≡ none
  unfolding get
  get-keep-none p k [] h = refl
  get-keep-none p k ((j, w) ∷ d) h = ground (arith, get-keep-none p k d)

  pub IsDistinct-keep : (p : K × V → Bool) (d : Dict K V) → IsDistinct d → IsDistinct (keep p d)
  IsDistinct-keep p [] h = tt
  IsDistinct-keep p ((j, w) ∷ d) h = elim (Bool-cases (p (j, w))) [
    | inl q ↦ rw q (get-keep-none p j d h.0, IsDistinct-keep p d h.1)
    | inr q ↦ rw q (IsDistinct-keep p d h.1)
  ]

  -- The entries that pass a test are those that can be looked up behind it.
  pub get-keep :
      (p : K × V → Bool) (k : K) (d : Dict K V)
      → IsDistinct d
      → get k (keep p d)
        ≡ elim (get k d) [ none ↦ none | some v ↦ if p (k, v) then some v else none ]
  unfolding get
  get-keep p k [] h = refl
  get-keep p k ((j, w) ∷ d) h = ground (arith, e.beq_iff j k, get-keep p k d, get-keep-none p k d)

  get-remove-none : (j k : K) (d : Dict K V) → get k d ≡ none → get k (remove j d) ≡ none
  get-remove-none j k d h = rw get-remove (ground arith)

  pub IsDistinct-remove : (k : K) (d : Dict K V) → IsDistinct d → IsDistinct (remove k d)
  unfolding remove
  IsDistinct-remove k [] h = tt
  IsDistinct-remove k ((j, w) ∷ d) h = elim (Bool-cases (e.beq j k)) [
    | inl q ↦ rw q (IsDistinct-remove k d h.1)
    | inr q ↦ rw q (get-remove-none k j d h.0, IsDistinct-remove k d h.1)
  ]
