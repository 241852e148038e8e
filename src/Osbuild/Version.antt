-- ===== src/Osbuild/Version.antt =====
-- buster/osbuild/resolver.py: the comparison of Debian versions. A text is the list of its code points;
-- `int` is Python's, `none` for a ValueError. The results 1, 0 and -1 are `greater`, `same` and `less`.
pub mod Signs
mod Tests
use Prim.Native.Nat.{compare, Ordering}
use aioperator.Prelude.{
  ℕ, Bool, true, false, ◌&&◌, ◌||◌, Option, none, some, List, [], ◌∷◌, ◌++◌, String, str_eq,
  if◌then◌else◌, ltb, leb, ◌==◌, length, ℤ, ltb_ℤ, codes,
}

abbrev pub Text : Type 0
Text = List ℕ

pub data Sign : Type 0 where
  less same greater : Sign

abbrev pub flip : Sign → Sign
flip less = greater
flip same = same
flip greater = less

abbrev pub cmp_nat : ℕ → ℕ → Sign
cmp_nat a b = elim (compare a b) [ Ordering.lt ↦ less | Ordering.eq ↦ same | Ordering.gt ↦ greater ]

-- `==` and `>` on texts in one.
unfoldable pub cmp_text : Text → Text → Sign
cmp_text [] [] = same
cmp_text [] (d ∷ t) = less
cmp_text (c ∷ s) [] = greater
cmp_text (c ∷ s) (d ∷ t) =
    let rest = cmp_text s t in elim (cmp_nat c d) [ less ↦ less | same ↦ rest | greater ↦ greater ]

abbrev pub is_same : Sign → Bool
is_same same = true
is_same _ = false

-- `s.partition(c)`: without the separator the second part is empty.
unfoldable pub partition : ℕ → Text → Text × Text
partition c [] = ([], [])
partition c (d ∷ s) =
    let (before, behind) = partition c s in if d == c then ([], s) else (d ∷ before, behind)

abbrev pub contains : ℕ → Text → Bool
contains q [] = false
contains q (c ∷ s) = c == q || contains q s

-- The character classes of `_RE_NUMBER`.
pub data Class : Type 0 where
  digit letter mark other : Class

abbrev pub class_of : ℕ → Class
class_of c =
    if leb b'0' c && leb c b'9'
    then digit
    else if (leb b'A' c && leb c b'Z') || (leb b'a' c && leb c b'z')
    then letter
    else if c == b'.' || c == b'+' || c == b'~' || c == b'-'
    then mark
    else other

-- A piece: a run of digits, or a run of letters or a mark.
pub data Piece : Type 0 where
  num word : Text → Piece

-- Puts a character in front of the pieces of the text behind it.
unfoldable pub add_char : ℕ → Class → Option Class → List Piece → List Piece
add_char c digit (some digit) (num t ∷ pieces) = num (c ∷ t) ∷ pieces
add_char c digit _ pieces = num (c ∷ []) ∷ pieces
add_char c letter (some letter) (word t ∷ pieces) = word (c ∷ t) ∷ pieces
add_char c letter _ pieces = word (c ∷ []) ∷ pieces
add_char c mark _ pieces = word (c ∷ []) ∷ pieces
add_char c other _ pieces = pieces

-- `_pieces`
unfoldable pub pieces : Text → List Piece
unfolding add_char
pieces [] = []
pieces (c ∷ s) =
    add_char c (class_of c) (elim s [ [] ↦ none | d ∷ _ ↦ some (class_of d) ]) (pieces s)

-- One round of the loop of `_cmp_component`.
unfoldable pub cmp_piece : Piece → Piece → Sign
unfolding cmp_text
cmp_piece (num s) (num t) = elim (cmp_nat (length s) (length t)) [
  | less ↦ less
  | same ↦ cmp_text s t
  | greater ↦ greater
]
cmp_piece (num s) (word t) = greater
cmp_piece (word s) (num t) = less
cmp_piece (word s) (word t) = cmp_text s t

unfoldable pub cmp_pieces : List Piece → List Piece → Sign
unfolding cmp_piece
cmp_pieces [] [] = same
cmp_pieces [] (q ∷ qs) = less
cmp_pieces (p ∷ ps) [] = greater
cmp_pieces (p ∷ ps) (q ∷ qs) =
    let rest = cmp_pieces ps qs in
    elim (cmp_piece p q) [ less ↦ less | same ↦ rest | greater ↦ greater ]

unfoldable pub cmp_component : Text → Text → Sign
unfolding pieces cmp_pieces
cmp_component a b = cmp_pieces (pieces a) (pieces b)

-- The part behind the epoch: the upstream version, then the revision.
unfoldable pub cmp_rest : Text → Text → Sign
unfolding partition cmp_component
cmp_rest a b =
    let (a_up, a_down) = partition b'-' a in
    let (b_up, b_down) = partition b'-' b in
    elim (cmp_component a_up b_up) [
      | less ↦ less
      | same ↦ cmp_component a_down b_down
      | greater ↦ greater
    ]

-- `operator` is empty when there is none.
pub record Constraint : Type 0 where
  pub name : String
  pub operator : String
  pub version : Text

module _ (int : Text → Option ℤ) where
  unfoldable pub split_version : Text → Text × Text
  unfolding partition
  split_version version =
      let (epoch, rest) = partition b':' version in
      if contains b':' version
      then elim (int epoch) [ none ↦ (b'0' ∷ [], version) | some _ ↦ (epoch, rest) ]
      else (b'0' ∷ [], version)

  -- Both epochs are numbers: `split_version` has read them, or they are `0`.
  abbrev pub int_less : Text → Text → Bool
  int_less a b = elim (int a) [
    | none ↦ false
    | some i ↦ elim (int b) [ none ↦ false | some j ↦ ltb_ℤ i j ]
  ]

  unfoldable pub vercmp : Text → Text → Sign
  unfolding split_version cmp_rest
  vercmp a b =
      let (a_epoch, a_rest) = split_version a in
      let (b_epoch, b_rest) = split_version b in
      if is_same (cmp_text a_epoch b_epoch)
      then cmp_rest a_rest b_rest
      else if int_less a_epoch b_epoch
      then less
      else greater

  unfoldable pub satisfied_by : Constraint → Text → Bool
  unfolding vercmp
  satisfied_by k version =
      let result = vercmp version k.version in
      if str_eq k.operator ""
      then true
      else if str_eq k.operator "<"
      then elim result [ less ↦ true | same ↦ false | greater ↦ false ]
      else if str_eq k.operator "<="
      then elim result [ less ↦ true | same ↦ true | greater ↦ false ]
      else if str_eq k.operator "="
      then is_same result
      else if str_eq k.operator ">="
      then elim result [ less ↦ false | same ↦ true | greater ↦ true ]
      else if str_eq k.operator ">"
      then elim result [ less ↦ false | same ↦ false | greater ↦ true ]
      else if str_eq k.operator "!="
      then elim result [ less ↦ true | same ↦ false | greater ↦ true ]
      else true
