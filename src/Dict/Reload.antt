-- ===== src/Dict/Reload.antt =====
-- A table that is written as the list of its values, and read back by setting each value under the
-- key that it carries.
use mathlib.Core.Path.{subst}
use mathlib.Core.List.{append-nil, append_assoc}
use aioperator.Prelude.{
  ◌≡◌, ◌≢◌, refl, sym, ap, ◌∙◌, none, some, List, [], ◌∷◌, ◌++◌, arith, Bool-cases, inl, inr,
}
use aioperator.Dict.{Eq, Dict, get, put, values}
use aioperator.Dict.Laws.{beq_refl}
use aioperator.Dict.Order.{put_new}
use aioperator.Dict.Distinct.{IsDistinct}

module _ {ℓ κ} {K : Type ℓ} {V : Type κ} ⦃e : Eq K⦄ (key : V → K) where
  unfoldable pub read_rows : List V → Dict K V → Dict K V
  read_rows [] d = d
  read_rows (v ∷ rows) d = read_rows rows (put (key v) v d)

  -- Every value stands under the key that it carries.
  abbrev pub IsKeyed : Dict K V → Type ℓ
  IsKeyed [] = Unit
  IsKeyed ((k, v) ∷ d) = (key v ≡ k) × IsKeyed d

  pub IsKeyed-put : (k : K) (v : V) (d : Dict K V) → key v ≡ k → IsKeyed d → IsKeyed (put k v d)
  unfolding put
  IsKeyed-put k v [] q h = (q, tt)
  IsKeyed-put k v ((j, w) ∷ d) q h = elim (Bool-cases (e.beq j k)) [
    | inl b ↦ rw b (q ∙ sym ((e.beq_iff j k).0 b), h.1)
    | inr b ↦ rw b (h.0, IsKeyed-put k v d q h.1)
  ]

  pub IsKeyed-get : (k : K) (v : V) (d : Dict K V) → IsKeyed d → get k d ≡ some v → key v ≡ k
  unfolding get
  IsKeyed-get k v [] h q = ground arith
  IsKeyed-get k v ((j, w) ∷ d) h q = ground (arith, e.beq_iff j k, IsKeyed-get k v d h.1)

  present : (k : K) (v : V) (acc d : Dict K V) → get k (acc ++ (k, v) ∷ d) ≢ none
  unfolding get
  present k v [] d = ground (arith, beq_refl k)
  present k v ((j, w) ∷ acc) d = ground (arith, present k v acc d)

  absent : (k : K) (v : V) (acc d : Dict K V) → IsDistinct (acc ++ (k, v) ∷ d) → get k acc ≡ none
  unfolding get
  absent k v [] d h = refl
  absent k v ((j, w) ∷ acc) d h = elim (Bool-cases (e.beq j k)) [
    | inl b ↦ absurd (
        present j v acc d
          (subst (λ i. get j (acc ++ (i, v) ∷ d) ≡ none) (sym ((e.beq_iff j k).0 b)) h.0))
    | inr b ↦ rw b (absent k v acc d h.1)
  ]

  read_rows_from :
      (acc d : Dict K V) → IsDistinct (acc ++ d) → IsKeyed d → read_rows (values d) acc ≡ acc ++ d
  unfolding read_rows
  read_rows_from acc [] h q = sym (append-nil acc)
  read_rows_from acc ((k, v) ∷ d) h q =
      ap (λ i. read_rows (values d) (put i v acc)) q.0
      ∙ ap (read_rows (values d)) (put_new k v acc (absent k v acc d h))
      ∙ read_rows_from (acc ++ (k, v) ∷ []) d
          (subst IsDistinct (sym (append_assoc acc ((k, v) ∷ []) d)) h) q.1
      ∙ append_assoc acc ((k, v) ∷ []) d

  pub read_rows-values : (d : Dict K V) → IsDistinct d → IsKeyed d → read_rows (values d) [] ≡ d
  read_rows-values d h q = read_rows_from [] d h q
