-- ===== src/Prelude/Sorting.antt =====
-- Python's `list.sort`, which is stable, as insertion from the right.
use Prim.Native.Nat.{ℕ, zero, suc}
use mathlib.Core.Path.{◌≡◌, refl, ap, ◌∙◌}
use native.Mathlib.Omega.{arith}
use mathlib.Core.Logic.{inl, inr}
use mathlib.Core.Bool.{Bool, true, false}
use mathlib.Core.List.{List, [], ◌∷◌, Perm}
use mathlib.Core.List.Perm
use aioperator.Prelude.Tests.{if◌then◌else◌, Bool-cases}
use aioperator.Prelude.Lists.{All, length, take, drop}

module _ {ℓ κ} {A : Type ℓ} (P : A → Type κ) where
  All-take : (n : ℕ) (xs : List A) → All P xs → All P (take n xs)
  All-take zero xs all = tt
  All-take (suc n) [] all = tt
  All-take (suc n) (x ∷ xs) all = (all.0, All-take n xs all.1)

  All-drop : (n : ℕ) (xs : List A) → All P xs → All P (drop n xs)
  All-drop zero xs all = all
  All-drop (suc n) [] all = tt
  All-drop (suc n) (x ∷ xs) all = All-drop n xs all.1

module _ {ℓ} {A : Type ℓ} (less : A → A → Bool) where
  unfoldable pub sort_insert : A → List A → List A
  sort_insert x [] = x ∷ []
  sort_insert x (y ∷ ys) = let rest = sort_insert x ys in if less y x then y ∷ rest else x ∷ y ∷ ys

  unfoldable pub sort_by : List A → List A
  unfolding sort_insert
  sort_by [] = []
  sort_by (x ∷ xs) = sort_insert x (sort_by xs)

  -- No element behind is less than one before it.
  abbrev pub IsSortedBy : List A → Type 0
  IsSortedBy [] = Unit
  IsSortedBy (x ∷ xs) = All (λ y. less y x ≡ false) xs × IsSortedBy xs

  sort_insert-perm : (x : A) (ys : List A) → Perm (sort_insert x ys) (x ∷ ys)
  unfolding sort_insert
  sort_insert-perm x [] = Perm.refl (x ∷ [])
  sort_insert-perm x (y ∷ ys) = elim (Bool-cases (less y x)) [
    | inl h ↦ rw h (Perm.trans (Perm.cons y (sort_insert-perm x ys)) (Perm.swap x y ys))
    | inr h ↦ rw h (Perm.refl (x ∷ y ∷ ys))
  ]

  pub sort_by-perm : (xs : List A) → Perm (sort_by xs) xs
  unfolding sort_by
  sort_by-perm [] = Perm.refl []
  sort_by-perm (x ∷ xs) =
      Perm.trans (sort_insert-perm x (sort_by xs)) (Perm.cons x (sort_by-perm xs))

  length-sort_insert : (x : A) (ys : List A) → length (sort_insert x ys) ≡ suc (length ys)
  unfolding sort_insert
  length-sort_insert x [] = refl
  length-sort_insert x (y ∷ ys) = ground (arith, length-sort_insert x ys)

  pub length-sort_by : (xs : List A) → length (sort_by xs) ≡ length xs
  unfolding sort_by
  length-sort_by [] = refl
  length-sort_by (x ∷ xs) = length-sort_insert x (sort_by xs) ∙ ap suc (length-sort_by xs)

  pub IsSortedBy-take : (n : ℕ) (xs : List A) → IsSortedBy xs → IsSortedBy (take n xs)
  IsSortedBy-take zero xs s = tt
  IsSortedBy-take (suc n) [] s = tt
  IsSortedBy-take (suc n) (x ∷ xs) s =
      (All-take (λ y. less y x ≡ false) n xs s.0, IsSortedBy-take n xs s.1)

  pub IsSortedBy-drop : (n : ℕ) (xs : List A) → IsSortedBy xs → IsSortedBy (drop n xs)
  IsSortedBy-drop zero xs s = s
  IsSortedBy-drop (suc n) [] s = tt
  IsSortedBy-drop (suc n) (x ∷ xs) s = IsSortedBy-drop n xs s.1

  -- No element of the second list is less than one of the first.
  abbrev pub Precedes : List A → List A → Type 0
  Precedes xs ys = All (λ x. All (λ y. less y x ≡ false) ys) xs

  pub Precedes-take-drop : (n : ℕ) (xs : List A) → IsSortedBy xs → Precedes (take n xs) (drop n xs)
  Precedes-take-drop zero xs s = tt
  Precedes-take-drop (suc n) [] s = tt
  Precedes-take-drop (suc n) (x ∷ xs) s =
      (All-drop (λ y. less y x ≡ false) n xs s.0, Precedes-take-drop n xs s.1)

  module _ (trans : (a b c : A) → less a b ≡ false → less b c ≡ false → less a c ≡ false)
      (asymm : (a b : A) → less a b ≡ true → less b a ≡ false) where
    All-mono :
        (a b : A) (xs : List A)
        → less b a ≡ false
        → All (λ y. less y b ≡ false) xs
        → All (λ y. less y a ≡ false) xs
    All-mono a b [] h all = tt
    All-mono a b (x ∷ xs) h all = (trans x b a all.0 h, All-mono a b xs h all.1)

    All-sort_insert :
        (a x : A) (ys : List A)
        → less x a ≡ false
        → All (λ y. less y a ≡ false) ys
        → All (λ y. less y a ≡ false) (sort_insert x ys)
    unfolding sort_insert
    All-sort_insert a x [] h all = (h, tt)
    All-sort_insert a x (y ∷ ys) h all = elim (Bool-cases (less y x)) [
      | inl q ↦ rw q (all.0, All-sort_insert a x ys h all.1)
      | inr q ↦ rw q (h, all)
    ]

    sort_insert-IsSortedBy : (x : A) (ys : List A) → IsSortedBy ys → IsSortedBy (sort_insert x ys)
    unfolding sort_insert
    sort_insert-IsSortedBy x [] s = (tt, tt)
    sort_insert-IsSortedBy x (y ∷ ys) s = elim (Bool-cases (less y x)) [
      | inl h ↦ rw h (All-sort_insert y x ys (asymm y x h) s.0, sort_insert-IsSortedBy x ys s.1)
      | inr h ↦ rw h ((h, All-mono x y ys h s.0), s)
    ]

    pub sort_by-IsSortedBy : (xs : List A) → IsSortedBy (sort_by xs)
    unfolding sort_by
    sort_by-IsSortedBy [] = tt
    sort_by-IsSortedBy (x ∷ xs) = sort_insert-IsSortedBy x (sort_by xs) (sort_by-IsSortedBy xs)
