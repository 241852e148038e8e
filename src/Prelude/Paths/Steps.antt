-- ===== src/Prelude/Paths/Steps.antt =====
-- Detours in a path: `.` and a name with `..` behind it change nothing.
use mathlib.Core.Bool.{true≢false}
use aioperator.Prelude.{
  ℕ, ◌≤◌, ◌≡◌, refl, ap, ◌∙◌, false, ◌||◌, Bool-cases, inl, inr, List, [], ◌∷◌, ◌++◌, codes, ◌==◌,
  length, arith,
}
use aioperator.Prelude.Strings.{Text, is_empty, same_text, split_on, grow, contains, join}
use aioperator.Prelude.Paths.{step, steps, reversed, root, normpath}

is_empty-grow : (d : ℕ) (ts : List Text) → is_empty (grow d ts) ≡ false
is_empty-grow d [] = refl
is_empty-grow d (t ∷ ts) = refl

is_empty-split_on : (c : ℕ) (s : Text) → is_empty (split_on c s) ≡ false
unfolding split_on
is_empty-split_on c [] = refl
is_empty-split_on c (d ∷ s) = elim (Bool-cases (d == c)) [
  | inl q ↦ rw q refl
  | inr q ↦ rw q (is_empty-grow d (split_on c s))
]

grow-append :
    (d : ℕ) (ts us : List Text) → is_empty ts ≡ false → grow d (ts ++ us) ≡ grow d ts ++ us
grow-append d [] us h = absurd (true≢false h)
grow-append d (t ∷ ts) us h = refl

split_on-append : (c : ℕ) (s t : Text) → split_on c (s ++ c ∷ t) ≡ split_on c s ++ split_on c t
unfolding split_on
split_on-append c [] t = ground arith
split_on-append c (d ∷ s) t = elim (Bool-cases (d == c)) [
  | inl q ↦ rw q (ap (◌∷◌ []) (split_on-append c s t))
  | inr q ↦ rw q (
      ap (grow d) (split_on-append c s t)
      ∙ grow-append d (split_on c s) (split_on c t) (is_empty-split_on c s))
]

steps-append : (xs ys kept : List Text) → steps (xs ++ ys) kept ≡ steps ys (steps xs kept)
unfolding steps
steps-append [] ys kept = refl
steps-append (x ∷ xs) ys kept = steps-append xs ys (step x kept)

split_on_word : (c : ℕ) (s : Text) → contains c s ≡ false → split_on c s ≡ s ∷ []
unfolding split_on
split_on_word c [] h = refl
split_on_word c (d ∷ s) h = ground (arith, split_on_word c s)

-- A name of an entry of a directory.
pub record IsName (x : Text) : Type 0 where
  pub no_slash : contains b'/' x ≡ false
  pub not_dots : (is_empty x || same_text x (codes ".")) ≡ false
  pub not_up : same_text x (codes "..") ≡ false

steps-detour :
    (x : Text) (ys kept : List Text) → IsName x → steps (x ∷ codes ".." ∷ ys) kept ≡ steps ys kept
unfolding steps same_text
steps-detour x ys kept v = rw (v.not_dots, v.not_up) refl

root-append : (a t u : Text) → 3 ≤ length a → root (a ++ t) ≡ root (a ++ u)
root-append [] t u h = absurd (omega arith)
root-append (x ∷ []) t u h = absurd (omega arith)
root-append (x ∷ y ∷ []) t u h = absurd (omega arith)
root-append (x ∷ y ∷ z ∷ a) t u h = refl

-- `/x/../` for a slash.
abbrev pub detour : Text → Text → Text → Text
detour a x b = a ++ b'/' ∷ (x ++ b'/' ∷ (codes ".." ++ b'/' ∷ b))

split_on-detour :
    (a x b : Text)
    → IsName x
    → split_on b'/' (detour a x b) ≡ split_on b'/' a ++ x ∷ codes ".." ∷ split_on b'/' b
unfolding split_on
split_on-detour a x b v =
    rw
      (
        split_on-append b'/' a (x ++ b'/' ∷ (codes ".." ++ b'/' ∷ b)),
        split_on-append b'/' x (codes ".." ++ b'/' ∷ b),
        split_on_word b'/' x v.no_slash,
      )
      refl

-- Going into a directory and out of it again leads to the same path.
pub normpath-detour :
    (a x b : Text) → IsName x → 3 ≤ length a → normpath (detour a x b) ≡ normpath (a ++ b'/' ∷ b)
unfolding normpath
normpath-detour a x b v h =
    rw
      (
        split_on-detour a x b v,
        split_on-append b'/' a b,
        steps-append (split_on b'/' a) (x ∷ codes ".." ∷ split_on b'/' b) [],
        steps-append (split_on b'/' a) (split_on b'/' b) [],
        steps-detour x (split_on b'/' b) (steps (split_on b'/' a) []) v,
      )
      (ap
        (λ r.
          r
          ++ join (codes "/") (reversed (steps (split_on b'/' b) (steps (split_on b'/' a) [])) []))
        (root-append a (b'/' ∷ (x ++ b'/' ∷ (codes ".." ++ b'/' ∷ b))) (b'/' ∷ b) h))
