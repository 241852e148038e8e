-- ===== src/Intelligence/Procedures/Reloaded.antt =====
-- buster/intelligence/memory.py: the recipes after any calls, and after a restart.
use aioperator.Prelude.{
  ℕ, ◌≤◌, ◌≡◌, ◌⊎◌, refl, Bool, true, false, inl, inr, Option, none, some, List, [], ◌∷◌, String,
  arith, Bool-cases, str_eq,
}
use aioperator.Dict.{Dict, get, put, values, string_eq}
use aioperator.Dict.Distinct.{IsDistinct, IsDistinct-put}
use aioperator.Dict.Reload.{read_rows-values, IsKeyed, IsKeyed-put, IsKeyed-get}
use aioperator.Intelligence.Procedures.{
  Recipe, ProceduralMemory, load, save, learn_recipe, used, use_found, record_use,
}

pub data Op : Type 0 where
  learns : ℕ → String → List String → Op
  uses : ℕ → String → Bool → Op

unfoldable pub apply : Op → ProceduralMemory → ProceduralMemory
apply (learns now name steps) m = learn_recipe now name steps m
apply (uses now name success) m = record_use now name success m

unfoldable pub run : List Op → ProceduralMemory → ProceduralMemory
run [] m = m
run (op ∷ ops) m = run ops (apply op m)

-- No recipe has more successes than uses.
abbrev pub IsCounted : Dict String Recipe → Type 0
IsCounted [] = Unit
IsCounted ((k, r) ∷ d) = (r.successes ≤ r.uses) × IsCounted d

IsCounted-put :
    (k : String) (r : Recipe) (d : Dict String Recipe)
    → r.successes ≤ r.uses
    → IsCounted d
    → IsCounted (put k r d)
unfolding put
IsCounted-put k r [] h v = (h, tt)
IsCounted-put k r ((j, s) ∷ d) h v = elim (Bool-cases (str_eq j k)) [
  | inl b ↦ rw b (h, v.1)
  | inr b ↦ rw b (v.0, IsCounted-put k r d h v.1)
]

IsCounted-get :
    (k : String) (r : Recipe) (d : Dict String Recipe)
    → IsCounted d
    → get k d ≡ some r
    → r.successes ≤ r.uses
unfolding get
IsCounted-get k r [] v g = ground arith
IsCounted-get k r ((j, s) ∷ d) v g = ground (arith, IsCounted-get k r d v.1, v.0)

record IsSaved (m : ProceduralMemory) : Type 0 where
  pub distinct : IsDistinct m.recipes
  pub keyed : IsKeyed (λ r. r.name) m.recipes
  pub counted : IsCounted m.recipes
  pub written : (m.file ≡ some (values m.recipes)) ⊎ ((m.file ≡ none) × (m.recipes ≡ []))

save-put-IsSaved :
    (k : String) (r : Recipe) (m : ProceduralMemory)
    → r.name ≡ k
    → r.successes ≤ r.uses
    → IsSaved m
    → IsSaved (save (record m { recipes = put k r m.recipes }))
unfolding save
save-put-IsSaved k r m e h v = record {
  distinct = IsDistinct-put k r m.recipes v.distinct;
  keyed = IsKeyed-put (λ x. x.name) k r m.recipes e v.keyed;
  counted = IsCounted-put k r m.recipes h v.counted;
  written = inl refl;
}

used_le :
    (now : ℕ) (success : Bool) (r : Recipe)
    → r.successes ≤ r.uses
    → (used now success r).successes ≤ (used now success r).uses
used_le now true r h = omega (arith, h)
used_le now false r h = omega (arith, h)

use_found-IsSaved :
    (now : ℕ) (name : String) (success : Bool) (found : Option Recipe) (m : ProceduralMemory)
    → get name m.recipes ≡ found
    → IsSaved m
    → IsSaved (use_found now name success found m)
unfolding use_found
use_found-IsSaved now name success none m e v = v
use_found-IsSaved now name success (some r) m e v =
    save-put-IsSaved name (used now success r) m
      (IsKeyed-get (λ x. x.name) name r m.recipes v.keyed e)
      (used_le now success r (IsCounted-get name r m.recipes v.counted e)) v

apply-IsSaved : (op : Op) (m : ProceduralMemory) → IsSaved m → IsSaved (apply op m)
unfolding apply learn_recipe record_use
apply-IsSaved (learns now name steps) m v = save-put-IsSaved name _ m refl (omega arith) v
apply-IsSaved (uses now name success) m v =
    use_found-IsSaved now name success (get name m.recipes) m refl v

run-IsSaved : (ops : List Op) (m : ProceduralMemory) → IsSaved m → IsSaved (run ops m)
unfolding run
run-IsSaved [] m v = v
run-IsSaved (op ∷ ops) m v = run-IsSaved ops (apply op m) (apply-IsSaved op m v)

load-IsSaved : (m : ProceduralMemory) → IsSaved m → (load m.file).recipes ≡ m.recipes
unfolding load
load-IsSaved m v = elim v.written [
  | inl q ↦ rw (q, load) (read_rows-values (λ r. r.name) m.recipes v.distinct v.keyed)
  | inr (q, e) ↦ rw (q, load, e) refl
]

-- Whatever recipes are learnt and used on a new memory, a restart reads all of them back from the file in
-- their order with their counts, and no recipe has more successes than uses.
pub reload-run :
    (ops : List Op)
    → ((load (run ops (load none)).file).recipes ≡ (run ops (load none)).recipes)
      × IsCounted (run ops (load none)).recipes
unfolding load
reload-run ops =
    let v : IsSaved (run ops (load none)) =
      run-IsSaved ops (load none)
        (record { distinct = tt; keyed = tt; counted = tt; written = inr (refl, refl) }) in
    (load-IsSaved _ v, v.counted)
