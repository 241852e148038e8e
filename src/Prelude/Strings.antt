-- ===== src/Prelude/Strings.antt =====
-- Python's `str` and slices, where a text is the list of its code points.
pub mod Lines
use Prim.Native.String.{String}
use Prim.Native.Nat.{ℕ, zero, suc, ◌+◌, ◌-◌, ◌*◌, min}
use mathlib.Core.Bool.{Bool, true, false, ◌&&◌, ◌||◌}
use mathlib.Core.Option.{Option, none, some}
use mathlib.Core.List.{List, [], ◌∷◌, ◌++◌}
use aioperator.Prelude.Tests.{if◌then◌else◌, leb, ◌==◌}
use aioperator.Prelude.Lists.{length, take, drop}
use aioperator.Prelude.Ints.{ℤ, pos, negsuc, neg}

abbrev pub Text : Type 0
Text = List ℕ

abbrev between : ℕ → ℕ → ℕ → Bool
between a b c = leb a c && leb c b

-- `c.isspace()`
abbrev pub is_space : ℕ → Bool
is_space c =
    between 9 13 c
    || between 28 32 c
    || c == 133
    || c == 160
    || c == 5760
    || between 8192 8202 c
    || c == 8232
    || c == 8233
    || c == 8239
    || c == 8287
    || c == 12288

abbrev pub is_digit : ℕ → Bool
is_digit c = between b'0' b'9' c

abbrev pub is_empty {ℓ} : {A : Type ℓ} → List A → Bool
is_empty [] = true
is_empty (x ∷ xs) = false

-- `s.lstrip(chars)` and `s.rstrip(chars)`, for a set of characters given by its test.
abbrev pub lstrip_by : (ℕ → Bool) → Text → Text
lstrip_by p [] = []
lstrip_by p (c ∷ s) = let rest = lstrip_by p s in if p c then rest else c ∷ s

abbrev pub rstrip_by : (ℕ → Bool) → Text → Text
rstrip_by p [] = []
rstrip_by p (c ∷ s) = let rest = rstrip_by p s in if p c && is_empty rest then [] else c ∷ rest

-- `s.strip()`
abbrev pub strip : Text → Text
strip s = rstrip_by is_space (lstrip_by is_space s)

-- `s.startswith(prefix)`, the prefix first.
abbrev pub has_prefix : Text → Text → Bool
has_prefix [] s = true
has_prefix (c ∷ p) [] = false
has_prefix (c ∷ p) (d ∷ s) = c == d && has_prefix p s

-- The start and the end of a slice: a negative index counts from the end, and both are clamped.
abbrev pub clamp : ℕ → ℤ → ℕ
clamp len (pos n) = min n len
clamp len (negsuc n) = len - suc n

-- `xs[i:j]`
abbrev pub slice {ℓ} : {A : Type ℓ} → List A → ℤ → ℤ → List A
slice xs i j = take (clamp (length xs) j - clamp (length xs) i) (drop (clamp (length xs) i) xs)

-- `b.decode("ascii", "replace")`
abbrev pub decode_ascii : List ℕ → Text
decode_ascii [] = []
decode_ascii (b ∷ bs) = (if leb b 127 then b else 65533) ∷ decode_ascii bs

-- Digits with single underscores between them; `after` says that a digit stands before.
abbrev pub digits_from : Bool → ℕ → Text → Option ℕ
digits_from true n [] = some n
digits_from false n [] = none
digits_from after n (c ∷ s) =
    let rest = digits_from (is_digit c) (if is_digit c then n * 10 + (c - b'0') else n) s in
    if is_digit c || (c == b'_' && after) then rest else none

abbrev signed : Bool → Option ℕ → Option ℤ
signed minus none = none
signed minus (some n) = some (if minus then neg n else pos n)

-- `int(s)` of an ASCII text that is stripped, `none` for a ValueError.
abbrev pub int : Text → Option ℤ
int [] = none
int (c ∷ s) =
    if c == b'-' || c == b'+'
    then signed (c == b'-') (digits_from false 0 s)
    else signed false (digits_from false 0 (c ∷ s))

-- `str ==`
unfoldable pub same_text : Text → Text → Bool
same_text [] [] = true
same_text [] (d ∷ t) = false
same_text (c ∷ s) [] = false
same_text (c ∷ s) (d ∷ t) = c == d && same_text s t

abbrev pub contains : ℕ → Text → Bool
contains q [] = false
contains q (c ∷ s) = c == q || contains q s

-- `s.partition(c)`: without the separator the second part is empty.
unfoldable pub partition : ℕ → Text → Text × Text
partition c [] = ([], [])
partition c (d ∷ s) =
    let (before, behind) = partition c s in if d == c then ([], s) else (d ∷ before, behind)

-- Puts a character in front of the first piece.
abbrev pub grow : ℕ → List Text → List Text
grow c [] = (c ∷ []) ∷ []
grow c (t ∷ ts) = (c ∷ t) ∷ ts

-- `s.split(c)`
unfoldable pub split_on : ℕ → Text → List Text
split_on c [] = [] ∷ []
split_on c (d ∷ s) = let rest = split_on c s in if d == c then [] ∷ rest else grow d rest

-- `sep.join(ts)`
abbrev pub join : Text → List Text → Text
join sep [] = []
join sep (t ∷ []) = t
join sep (t ∷ u ∷ ts) = t ++ (sep ++ join sep (u ∷ ts))

-- The characters at which `splitlines` breaks.
abbrev pub is_break : ℕ → Bool
is_break c = between 10 13 c || between 28 30 c || c == 133 || c == 8232 || c == 8233

pub data Place : Type 0 where
  second_half line_end in_line : Place

-- A line feed behind a carriage return belongs to the same break.
abbrev pub place : Bool → ℕ → Place
place after_return c =
    if after_return && c == b'\n' then second_half else if is_break c then line_end else in_line

-- `line` is what was read of the line.
unfoldable pub lines_from : Bool → Text → Text → List Text
lines_from after_return line [] = if is_empty line then [] else line ∷ []
lines_from after_return line (c ∷ s) = elim (place after_return c) [
  | second_half ↦ lines_from false line s
  | line_end ↦ line ∷ lines_from (c == b'\r') [] s
  | in_line ↦ lines_from false (line ++ c ∷ []) s
]

-- `s.splitlines()`
unfoldable pub splitlines : Text → List Text
unfolding lines_from
splitlines s = lines_from false [] s

-- `s.lower()` on the letters A to Z.
abbrev pub lower_ascii : Text → Text
lower_ascii [] = []
lower_ascii (c ∷ s) = (if between b'A' b'Z' c then c + 32 else c) ∷ lower_ascii s

-- The words of `s.split()`: `word` is what was read of the word.
abbrev pub with_word : Text → List Text → List Text
with_word [] ws = ws
with_word (c ∷ w) ws = (c ∷ w) ∷ ws

unfoldable pub words_from : Text → Text → List Text
words_from word [] = with_word word []
words_from word (c ∷ s) = elim (is_space c) [
  | true ↦ with_word word (words_from [] s)
  | false ↦ words_from (word ++ c ∷ []) s
]

-- `s.split()`
unfoldable pub split_words : Text → List Text
unfolding words_from
split_words s = words_from [] s

-- `w in s`, the part first.
unfoldable pub is_in_text : Text → Text → Bool
is_in_text w [] = is_empty w
is_in_text w (c ∷ s) = has_prefix w (c ∷ s) || is_in_text w s

-- `s[:n]` of a native text.
abbrev pub first_chars : ℕ → String → String
first_chars zero s = ""
first_chars (suc n) String.[] = ""
first_chars (suc n) (String.◌∷◌ c s) = String.◌∷◌ c (first_chars n s)
