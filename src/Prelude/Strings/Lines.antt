-- ===== src/Prelude/Strings/Lines.antt =====
-- Texts put together and taken apart again.
use mathlib.Core.Bool.{true≢false}
use mathlib.Core.List.{append_assoc, append-nil, nil≢cons}
use aioperator.Prelude.{ℕ, ◌≡◌, ◌↔◌, refl, ap, sym, ◌∙◌, true, false, [], ◌∷◌, ◌++◌, arith, ==_iff}
use aioperator.Prelude.Strings.{
  Text, same_text, contains, partition, is_break, lines_from, splitlines,
}

pub same_text_iff : (s t : Text) → (same_text s t ≡ true) ↔ (s ≡ t)
unfolding same_text
same_text_iff [] [] = (λ h. refl, λ h. refl)
same_text_iff [] (d ∷ t) = (λ h. absurd (true≢false (sym h)), λ h. absurd (nil≢cons h))
same_text_iff (c ∷ s) [] = (λ h. absurd (true≢false (sym h)), λ h. absurd (nil≢cons (sym h)))
same_text_iff (c ∷ s) (d ∷ t) = ground (arith, ==_iff c d, same_text_iff s t)

-- No line break in the text.
abbrev pub IsOneLine : Text → Type 0
IsOneLine [] = Unit
IsOneLine (c ∷ s) = (is_break c ≡ false) × IsOneLine s

pub IsOneLine-append : (s t : Text) → IsOneLine s → IsOneLine t → IsOneLine (s ++ t)
IsOneLine-append [] t hs ht = ht
IsOneLine-append (c ∷ s) t hs ht = (hs.0, IsOneLine-append s t hs.1 ht)

lines_from-append :
    (s rest acc : Text)
    → IsOneLine s
    → lines_from false acc (s ++ b'\n' ∷ rest) ≡ (acc ++ s) ∷ lines_from false [] rest
unfolding lines_from
lines_from-append [] rest acc h = ap (λ l. l ∷ lines_from false [] rest) (sym (append-nil acc))
lines_from-append (c ∷ s) rest acc h =
    rw (h.0, lines_from)
      (lines_from-append s rest (acc ++ c ∷ []) h.1
        ∙ ap (λ l. l ∷ lines_from false [] rest) (append_assoc acc (c ∷ []) s))

-- A line and its line feed in front of a text.
pub splitlines-line :
    (s rest : Text) → IsOneLine s → splitlines (s ++ b'\n' ∷ rest) ≡ s ∷ splitlines rest
unfolding splitlines
splitlines-line s rest h = lines_from-append s rest [] h

-- The separator stands behind a text without it.
pub partition-append :
    (c : ℕ) (s t : Text) → contains c s ≡ false → partition c (s ++ c ∷ t) ≡ (s, t)
unfolding partition
partition-append c [] t h = ground arith
partition-append c (d ∷ s) t h = ground (arith, partition-append c s t)

pub contains-append : (c : ℕ) (s t : Text) → contains c (s ++ c ∷ t) ≡ true
contains-append c [] t = ground arith
contains-append c (d ∷ s) t = ground (arith, contains-append c s t)
