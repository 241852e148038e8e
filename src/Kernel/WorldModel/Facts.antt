-- ===== src/Kernel/WorldModel/Facts.antt =====
-- buster/kernel/world_model.py: `infer` followed by `forget_inferred`, and what `_facts` keeps of it.
use aioperator.Prelude.{ℕ, ◌≡◌, refl, Bool-cases, inl, inr, none, String, ℤ}
use aioperator.Dict.{get, string_eq}
use aioperator.Dict.Laws.{get-put_self, get-remove_self}
use aioperator.Kernel.WorldModel.{WorldModel, bump, set_fact, get_fact, infer, forget_inferred}

module _ {V : Type 0} (serializable : V → V) where
  -- An inference that is forgotten again is gone from the inferred facts and leaves the observed ones
  -- as they were, but its value stays the plain fact of the key.
  pub forget_inferred-infer :
      (now : ℕ) (key : String) (value default : V) (c : ℤ) (source : String) (w : WorldModel V)
      → let after = forget_inferred key (infer serializable now key value c source w) in
        (get key after.inferred ≡ none)
        × (after.observed ≡ w.observed)
        × (get_fact key default after ≡ value)
  unfolding forget_inferred infer set_fact bump get_fact
  forget_inferred-infer now key value default c source w = elim (Bool-cases w.has_router) [
    | inl q ↦ rw (q, get-put_self key value w.facts) (get-remove_self key _, refl, refl)
    | inr q ↦ rw (q, get-put_self key value w.facts) (get-remove_self key _, refl, refl)
  ]
