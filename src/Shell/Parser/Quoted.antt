-- ===== src/Shell/Parser/Quoted.antt =====
-- Words in double quotes through `tokenize` and `strip_outer_quotes`.
use mathlib.Core.List.{append-nil, append_assoc}
use aioperator.Prelude.{
  ℕ, ◌≡◌, refl, ap, sym, ◌∙◌, Bool, true, false, none, some, List, [], ◌∷◌, ◌++◌, map,
  if◌then◌else◌, ◌==◌, All,
}
use aioperator.Shell.Parser.{
  Text, ends_with, without_last, scan, flush, tokenize, strip_outer_quotes,
}

abbrev pub quoted : Text → Text
quoted w = b'"' ∷ w ++ b'"' ∷ []

-- The words in double quotes, with a space between two of them.
abbrev pub line_of : List Text → Text
line_of [] = []
line_of (w ∷ []) = quoted w
line_of (w ∷ v ∷ ws) = quoted w ++ b' ' ∷ line_of (v ∷ ws)

-- No double quote in a word.
abbrev pub IsPlain : Text → Type 0
IsPlain w = All (λ c. (c == b'"') ≡ false) w

module _ (is_space : ℕ → Bool) where
  scan_word :
      (w line buffer : Text) (tokens : List Text)
      → IsPlain w
      → scan is_space (w ++ b'"' ∷ line) (some b'"') buffer tokens
        ≡ scan is_space line none (buffer ++ (w ++ b'"' ∷ [])) tokens
  unfolding scan
  scan_word [] line buffer tokens h = refl
  scan_word (c ∷ w) line buffer tokens h =
      ap
        (λ q.
          scan is_space (w ++ b'"' ∷ line) (if q then none else some b'"') (buffer ++ c ∷ [])
            tokens)
        h.0
      ∙ scan_word w line (buffer ++ c ∷ []) tokens h.1
      ∙ ap (λ b. scan is_space line none b tokens) (append_assoc buffer (c ∷ []) (w ++ b'"' ∷ []))

  scan_space :
      (line buffer : Text) (tokens : List Text)
      → is_space b' ' ≡ true
      → scan is_space (b' ' ∷ line) none buffer tokens
        ≡ scan is_space line none [] (flush is_space buffer tokens)
  unfolding scan
  scan_space line buffer tokens s =
      ap
        (λ b.
          if b
          then scan is_space line none [] (flush is_space buffer tokens)
          else scan is_space line none (buffer ++ b' ' ∷ []) tokens)
        s

  scan_line :
      (ws : List Text) (tokens : List Text)
      → is_space b' ' ≡ true
      → All IsPlain ws
      → scan is_space (line_of ws) none [] tokens ≡ tokens ++ map quoted ws
  unfolding scan
  scan_line [] tokens s h = sym (append-nil tokens)
  scan_line (w ∷ []) tokens s h = scan_word w [] (b'"' ∷ []) tokens h.0
  scan_line (w ∷ v ∷ ws) tokens s h =
      ap (λ t. scan is_space (b'"' ∷ t) none [] tokens)
        (append_assoc w (b'"' ∷ []) (b' ' ∷ line_of (v ∷ ws)))
      ∙ scan_word w (b' ' ∷ line_of (v ∷ ws)) (b'"' ∷ []) tokens h.0
      ∙ scan_space (line_of (v ∷ ws)) (quoted w) tokens s
      ∙ scan_line (v ∷ ws) (tokens ++ quoted w ∷ []) s h.1
      ∙ append_assoc tokens (quoted w ∷ []) (map quoted (v ∷ ws))

ends_with-append :
    (q : ℕ) (w : Text) (c : ℕ) → (q == q) ≡ true → ends_with q (c ∷ w ++ q ∷ []) ≡ true
ends_with-append q [] c h = h
ends_with-append q (d ∷ w) c h = ends_with-append q w d h

without_last-append : (q : ℕ) (w : Text) → without_last (w ++ q ∷ []) ≡ w
without_last-append q [] = refl
without_last-append q (c ∷ []) = refl
without_last-append q (c ∷ d ∷ w) = ap (λ t. c ∷ t) (without_last-append q (d ∷ w))

strip_outer_quotes-quoted : (w : Text) → strip_outer_quotes (quoted w) ≡ w
unfolding strip_outer_quotes
strip_outer_quotes-quoted [] = refl
strip_outer_quotes-quoted (c ∷ w) =
    rw (ends_with-append b'"' w c refl) (without_last-append b'"' (c ∷ w))

map-strip_outer_quotes : (ws : List Text) → map strip_outer_quotes (map quoted ws) ≡ ws
map-strip_outer_quotes [] = refl
map-strip_outer_quotes (w ∷ ws) = cc (strip_outer_quotes-quoted w, map-strip_outer_quotes ws)

-- When a space counts as white space, words without a double quote come back, spaces inside them
-- included, from the line that has each in double quotes and a space between two of them.
pub strip_outer_quotes-tokenize :
    (is_space : ℕ → Bool) (ws : List Text)
    → is_space b' ' ≡ true
    → All IsPlain ws
    → map strip_outer_quotes (tokenize is_space (line_of ws)) ≡ ws
unfolding tokenize
strip_outer_quotes-tokenize is_space ws s h =
    ap (map strip_outer_quotes) (scan_line is_space ws [] s h) ∙ map-strip_outer_quotes ws
