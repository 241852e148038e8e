-- ===== src/Config/Nested.antt =====
-- A read by a dotted key behind a write by the same key.
use mathlib.Core.Option.{some-injective, none-ne-some}
use aioperator.Prelude.{
  ◌≡◌, refl, ap, sym, ◌∙◌, inl, inr, false, Option-cases, some, List, [], ◌∷◌, ◌++◌, String, str_eq,
  eq_iff, eq_refl, if◌then◌else◌, get_or, arith,
}
use aioperator.Config.{
  Json, atom, object, Fields, empty, field, Config, get_field, put_field, save, get_path,
  get_nested, set_path, first_part, set_nested,
}

apart : (part : String) → str_eq part "install_path" ≡ false → str_eq "install_path" part ≡ false
apart part h = ground (arith, eq_iff part "install_path", eq_iff "install_path" part, h)

module _ {A : Type 0} where
  get_field-put_field :
      (k j : String) (v : Json A) (fs : Fields A)
      → get_field j (put_field k v fs) ≡ (if str_eq k j then some v else get_field j fs)
  unfolding get_field put_field
  get_field-put_field k j v empty = refl
  get_field-put_field k j v (field i w fs) =
      ground (arith, eq_iff i k, eq_iff i j, eq_iff k j, get_field-put_field k j v fs)

  get_field-put_self :
      (k : String) (v : Json A) (fs : Fields A) → get_field k (put_field k v fs) ≡ some v
  get_field-put_self k v fs = rw (get_field-put_field k k v fs) (rw (eq_refl k) refl)

  get_path-set_path :
      (parts : List String) (last : String) (value node : Json A) (fs : Fields A)
      → set_path parts last value node ≡ some fs
      → get_path (parts ++ last ∷ []) (object fs) ≡ some value
  unfolding get_path set_path
  get_path-set_path parts last value (atom a) fs h = absurd (none-ne-some fs h)
  get_path-set_path [] last value (object gs) fs h =
      ap (λ f. get_path (last ∷ []) (object f)) (sym (some-injective _ _ h))
      ∙ rw (get_field-put_self last value gs, get_path) refl
  get_path-set_path (part ∷ parts) last value (object gs) fs h =
      let child = get_or (get_field part gs) (object empty) in
      elim (Option-cases (set_path parts last value child)) [
        | inl q ↦ absurd (none-ne-some fs (rw (q, set_path) at h))
        | inr (inner, q) ↦
            ap (λ f. get_path (part ∷ parts ++ last ∷ []) (object f))
              (sym (some-injective _ _ (rw (q, set_path) at h)))
            ∙ rw (get_field-put_self part (object inner) gs, get_path)
                (get_path-set_path parts last value child inner q)
      ]

  -- The field that `save` writes is no part of another path.
  get_path-put_field :
      (part : String) (parts : List String) (key : String) (v : Json A) (fs : Fields A)
      → str_eq key part ≡ false
      → get_path (part ∷ parts) (object (put_field key v fs)) ≡ get_path (part ∷ parts) (object fs)
  unfolding get_path
  get_path-put_field part parts key v fs h =
      rw (get_field-put_field key part v fs, get_path, h) refl

  path_saved :
      (parts : List String) (last : String) (v : Json A) (fs : Fields A)
      → str_eq (first_part parts last) "install_path" ≡ false
      → get_path (parts ++ last ∷ []) (object (put_field "install_path" v fs))
        ≡ get_path (parts ++ last ∷ []) (object fs)
  path_saved [] last v fs h = get_path-put_field last [] "install_path" v fs (apart last h)
  path_saved (part ∷ parts) last v fs h =
      get_path-put_field part (parts ++ last ∷ []) "install_path" v fs (apart part h)

  -- A dotted key outside `install_path` that was set without an exception is read as the value set.
  pub get_nested-set_nested :
      (parts : List String) (last : String) (value default : Json A) (c c' : Config A)
      → str_eq (first_part parts last) "install_path" ≡ false
      → set_nested parts last value c ≡ some c'
      → get_nested (parts ++ last ∷ []) default c' ≡ value
  unfolding get_nested set_nested save
  get_nested-set_nested parts last value default c c' i h =
      elim (Option-cases (set_path parts last value (object c.fields))) [
        | inl q ↦ absurd (none-ne-some c' (rw (i, q, set_nested) at h))
        | inr (fs, q) ↦
            ap (λ d. get_nested (parts ++ last ∷ []) default d)
              (sym (some-injective _ _ (rw (i, q, set_nested) at h)))
            ∙ rw (path_saved parts last (atom c.install_path) fs i)
                (rw (get_path-set_path parts last value (object c.fields) fs q) refl)
      ]
