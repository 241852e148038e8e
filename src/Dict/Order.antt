-- ===== src/Dict/Order.antt =====
-- How an operation of a dictionary changes its list of entries.
use aioperator.Prelude.{◌≡◌, refl, none, some, [], ◌∷◌, ◌++◌, arith, length, ◌≤◌}
use aioperator.Dict.{Eq, Dict, get, put, remove, keys}

module _ {ℓ κ} {K : Type ℓ} {V : Type κ} ⦃e : Eq K⦄ where
  -- A new key goes last.
  pub put_new : (k : K) (v : V) (d : Dict K V) → get k d ≡ none → put k v d ≡ d ++ (k, v) ∷ []
  unfolding get put
  put_new k v [] h = refl
  put_new k v ((i, w) ∷ d) h = ground (arith, put_new k v d)

  -- A key that is there keeps its place.
  pub keys-put_old : (k : K) (v w : V) (d : Dict K V) → get k d ≡ some w → keys (put k v d) ≡ keys d
  unfolding get put
  keys-put_old k v w [] h = cc
  keys-put_old k v w ((i, u) ∷ d) h = ground (arith, keys-put_old k v w d)

  pub length-remove-le : (k : K) (d : Dict K V) → length (remove k d) ≤ length d
  unfolding remove
  length-remove-le k [] = omega arith
  length-remove-le k ((i, w) ∷ d) = ground (arith, length-remove-le k d)
