-- ===== src/Memory/Lines.antt =====
-- Files with one JSON value on a line, as buster/intelligence/memory.py and buster/memory/experience.py
-- keep them. Blank lines are skipped by the code and left out here.
use aioperator.Prelude.{
  ℕ, zero, suc, ◌<◌, ◌≡◌, refl, ap, sym, Bool-cases, inl, inr, Option, none, some, List, [], ◌∷◌,
  ◌++◌, map, length, last_n, latest, latest_short, if◌then◌else◌, leb, arith,
}

-- A line that holds a row, or one that `json.loads` refuses.
pub data Line {ℓ} (E : Type ℓ) : Type ℓ where
  row : E → Line E
  junk : Line E

module _ {ℓ} {E : Type ℓ} where
  -- The rows of the lines that can be read.
  abbrev pub readable : List (Line E) → List E
  readable [] = []
  readable (row e ∷ lines) = e ∷ readable lines
  readable (junk ∷ lines) = readable lines

  -- The rows, when all lines can be read.
  abbrev pub all_rows : List (Line E) → Option (List E)
  all_rows [] = some []
  all_rows (row e ∷ lines) = elim (all_rows lines) [ none ↦ none | some es ↦ some (e ∷ es) ]
  all_rows (junk ∷ lines) = none

  -- The lines of a file that may be missing.
  abbrev pub lines_of : Option (List (Line E)) → List (Line E)
  lines_of none = []
  lines_of (some lines) = lines

  pub readable-rows : (es : List E) → readable (map row es) ≡ es
  readable-rows [] = refl
  readable-rows (e ∷ es) = ap (◌∷◌ e) (readable-rows es)

  pub all_rows-rows : (es : List E) → all_rows (map row es) ≡ some es
  all_rows-rows [] = refl
  all_rows-rows (e ∷ es) = rw (all_rows-rows es) refl

  pub readable-append : (xs ys : List (Line E)) → readable (xs ++ ys) ≡ readable xs ++ readable ys
  readable-append [] ys = refl
  readable-append (row e ∷ xs) ys = ap (◌∷◌ e) (readable-append xs ys)
  readable-append (junk ∷ xs) ys = readable-append xs ys

module _ {ℓ} {A : Type ℓ} where
  pub last_n_lem : (c : ℕ) (xs : List A) → 0 < c → last_n c xs ≡ latest c xs
  last_n_lem zero xs h = absurd (omega arith)
  last_n_lem (suc c) xs h = refl

  -- Cutting a list that is too long to its last elements keeps the last ones, whatever its length.
  pub last_n-latest :
      (c : ℕ) (xs : List A) → 0 < c → (if leb (length xs) c then xs else last_n c xs) ≡ latest c xs
  last_n-latest zero xs h = absurd (omega arith)
  last_n-latest (suc c) xs h = elim (Bool-cases (leb (length xs) (suc c))) [
    | inl q ↦ rw q (sym (latest_short (suc c) xs (ground arith)))
    | inr q ↦ rw q refl
  ]
