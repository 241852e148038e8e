-- ===== src/Osbuild/Version/Signs.antt =====
-- The comparison of versions as an order: the two ways of asking agree, and `same` means equal pieces.
use aioperator.Prelude.{ℕ, ◌≡◌, refl, ap, ap, sym, ◌∙◌, Option, List, [], ◌∷◌, arith, ℤ}
use aioperator.Osbuild.Version.{
  Text, same, flip, cmp_nat, cmp_text, partition, Piece, num, word, pieces, cmp_piece, cmp_pieces,
  cmp_component, cmp_rest, split_version, vercmp,
}

cmp_nat-flip : (a b : ℕ) → cmp_nat b a ≡ flip (cmp_nat a b)
cmp_nat-flip a b = ground arith

cmp_text-flip : (s t : Text) → cmp_text t s ≡ flip (cmp_text s t)
unfolding cmp_text
cmp_text-flip [] [] = refl
cmp_text-flip [] (d ∷ t) = refl
cmp_text-flip (c ∷ s) [] = refl
cmp_text-flip (c ∷ s) (d ∷ t) = ground (arith, cmp_text-flip s t)

cmp_piece-flip : (p q : Piece) → cmp_piece q p ≡ flip (cmp_piece p q)
unfolding cmp_piece
cmp_piece-flip (num s) (num t) = ground (arith, cmp_text-flip s t)
cmp_piece-flip (num s) (word t) = refl
cmp_piece-flip (word s) (num t) = refl
cmp_piece-flip (word s) (word t) = cmp_text-flip s t

cmp_pieces-flip : (ps qs : List Piece) → cmp_pieces qs ps ≡ flip (cmp_pieces ps qs)
unfolding cmp_pieces
cmp_pieces-flip [] [] = refl
cmp_pieces-flip [] (q ∷ qs) = refl
cmp_pieces-flip (p ∷ ps) [] = refl
cmp_pieces-flip (p ∷ ps) (q ∷ qs) = ground (arith, cmp_piece-flip p q, cmp_pieces-flip ps qs)

cmp_text_refl : (s : Text) → cmp_text s s ≡ same
unfolding cmp_text
cmp_text_refl [] = refl
cmp_text_refl (c ∷ s) = ground (arith, cmp_text_refl s)

cmp_rest-flip : (a b : Text) → cmp_rest b a ≡ flip (cmp_rest a b)
unfolding cmp_rest cmp_component
cmp_rest-flip a b =
    let (au, ad) = partition b'-' a in
    let (bu, bd) = partition b'-' b in
    ground (arith, cmp_pieces-flip (pieces au) (pieces bu), cmp_pieces-flip (pieces ad) (pieces bd))

vercmp_same_epoch :
    (int : Text → Option ℤ) (a b : Text)
    → (split_version int a).0 ≡ (split_version int b).0
    → vercmp int a b ≡ cmp_rest (split_version int a).1 (split_version int b).1
unfolding vercmp
vercmp_same_epoch int a b h = rw (h, cmp_text_refl (split_version int b).0) refl

-- Two versions with the same epoch text compare the opposite way when they are swapped.
pub vercmp-flip :
    (int : Text → Option ℤ) (a b : Text)
    → (split_version int a).0 ≡ (split_version int b).0
    → vercmp int b a ≡ flip (vercmp int a b)
vercmp-flip int a b h =
    vercmp_same_epoch int b a (sym h)
    ∙ cmp_rest-flip (split_version int a).1 (split_version int b).1
    ∙ ap flip (sym (vercmp_same_epoch int a b h))

cmp_text-same : (s t : Text) → cmp_text s t ≡ same → s ≡ t
unfolding cmp_text
cmp_text-same [] [] h = refl
cmp_text-same [] (d ∷ t) h = absurd (ground arith)
cmp_text-same (c ∷ s) [] h = absurd (ground arith)
cmp_text-same (c ∷ s) (d ∷ t) h = ground (arith, cmp_text-same s t)

cmp_piece-same : (p q : Piece) → cmp_piece p q ≡ same → p ≡ q
unfolding cmp_piece
cmp_piece-same (num s) (num t) h = ground (arith, cmp_text-same s t)
cmp_piece-same (num s) (word t) h = absurd (ground arith)
cmp_piece-same (word s) (num t) h = absurd (ground arith)
cmp_piece-same (word s) (word t) h = ap word (cmp_text-same s t h)

cmp_pieces-same : (ps qs : List Piece) → cmp_pieces ps qs ≡ same → ps ≡ qs
unfolding cmp_pieces
cmp_pieces-same [] [] h = refl
cmp_pieces-same [] (q ∷ qs) h = absurd (ground arith)
cmp_pieces-same (p ∷ ps) [] h = absurd (ground arith)
cmp_pieces-same (p ∷ ps) (q ∷ qs) h = ground (arith, cmp_piece-same p q, cmp_pieces-same ps qs)

-- Two parts of a version compare as the same only if they consist of the same pieces.
pub cmp_component-same : (a b : Text) → cmp_component a b ≡ same → pieces a ≡ pieces b
unfolding cmp_component
cmp_component-same a b h = cmp_pieces-same (pieces a) (pieces b) h
