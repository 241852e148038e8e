-- ===== src/Osbuild/Archive/Image.antt =====
-- buster/osbuild/deb.py: an archive written member by member is read back, whatever short rest follows.
use mathlib.Core.Path.{subst}
use mathlib.Core.List.{append_assoc}
use aioperator.Prelude.{
  ℕ, zero, suc, ◌+◌, ◌-◌, ◌%◌, ◌≤◌, ◌<◌, min, none, some, List, [], ◌∷◌, ◌++◌, ◌≡◌, refl, ap, sym,
  ◌∙◌, map, ◌==◌, if◌then◌else◌, length, take, drop, length-append, All, ℤ, pos, arith, false,
  ltb_ℤ,
}
use aioperator.Prelude.Strings.{Text, slice}
use aioperator.Osbuild.Archive.{
  Bytes, magic, size_of, pad_even, header_at, name_of, member_at, read_members, without_tables,
  parse_ar, members,
}

-- A member as it stands in the archive.
pub record Stored : Type 0 where
  pub header : Bytes
  pub body : Bytes

abbrev pub padding : Bytes → Bytes
padding body = if length body % 2 == 1 then b'\n' ∷ [] else []

abbrev pub image : List Stored → Bytes
image [] = []
image (m ∷ ms) = m.header ++ (m.body ++ (padding m.body ++ image ms))

-- The header is sixty bytes long and says the length of the body.
pub record IsStored (m : Stored) : Type 0 where
  pub header_is : length m.header ≡ 60
  pub size_is : size_of m.header ≡ some (pos (length m.body))

drop-append {ℓ} : {A : Type ℓ} (xs ys : List A) → drop (length xs) (xs ++ ys) ≡ ys
drop-append [] ys = refl
drop-append (x ∷ xs) ys = drop-append xs ys

take-append {ℓ} : {A : Type ℓ} (xs ys : List A) → take (length xs) (xs ++ ys) ≡ xs
take-append [] ys = refl
take-append (x ∷ xs) ys = ap (◌∷◌ x) (take-append xs ys)

module _ {ℓ} {A : Type ℓ} (pre mid post : List A) where
  cut : (a b : ℕ) → a ≡ length pre → b ≡ length mid → take b (drop a (pre ++ (mid ++ post))) ≡ mid
  cut a b e f = rw (e, f, drop-append pre (mid ++ post), take-append mid post) refl

  length_parts : length (pre ++ (mid ++ post)) ≡ length pre + (length mid + length post)
  length_parts = length-append pre (mid ++ post) ∙ ap (λ n. length pre + n) (length-append mid post)

  slice_middle :
      (n k : ℕ)
      → n ≡ length pre
      → k ≡ length mid
      → slice (pre ++ (mid ++ post)) (pos n) (pos (n + k)) ≡ mid
  slice_middle n k e f =
      let total = length (pre ++ (mid ++ post)) in
      cut (min n total) (min (n + k) total - min n total) (omega (arith, length_parts))
        (omega (arith, length_parts))

pub header_at-stored :
    (pre header post : Bytes)
    → length header ≡ 60
    → header_at (pos (length pre)) (pre ++ (header ++ post)) ≡ header
header_at-stored pre header post h = slice_middle pre header post (length pre) 60 refl (sym h)

length_stored :
    (pre : Bytes) (m : Stored) (post : Bytes)
    → length m.header ≡ 60
    → length (pre ++ (m.header ++ (m.body ++ post))) ≡ length pre + 60 + length m.body + length post
length_stored pre m post h = omega (
  arith,
  h,
  length-append pre (m.header ++ (m.body ++ post)),
  length-append m.header (m.body ++ post),
  length-append m.body post,
)

fits :
    (pre : Bytes) (m : Stored) (post : Bytes) (n : ℕ)
    → length m.header ≡ 60
    → n ≤ length pre + 60 + length m.body
    → ltb_ℤ (pos (length (pre ++ (m.header ++ (m.body ++ post))))) (pos n) ≡ false
fits pre m post n h le = ground (arith, length_stored pre m post h)

body_slice :
    (pre : Bytes) (m : Stored) (post : Bytes)
    → length m.header ≡ 60
    → slice
        (pre ++ (m.header ++ (m.body ++ post)))
        (pos (length pre + 60))
        (pos (length pre + 60 + length m.body))
      ≡ m.body
body_slice pre m post h =
    subst (λ b. slice b (pos (length pre + 60)) (pos (length pre + 60 + length m.body)) ≡ m.body)
      (append_assoc pre m.header (m.body ++ post))
      (slice_middle (pre ++ m.header) m.body post (length pre + 60) (length m.body)
        (omega (arith, h, length-append pre m.header)) refl)

-- What stands before the next member.
abbrev upto : Bytes → Stored → Bytes
upto pre m = pre ++ (m.header ++ (m.body ++ padding m.body))

nested :
    (pre : Bytes) (m : Stored) (ms : List Stored) (rest : Bytes)
    → pre ++ (image (m ∷ ms) ++ rest)
      ≡ pre ++ (m.header ++ (m.body ++ (padding m.body ++ (image ms ++ rest))))
nested pre m ms rest = simp append_assoc

regroup :
    (pre : Bytes) (m : Stored) (rest : Bytes)
    → pre ++ (m.header ++ (m.body ++ (padding m.body ++ rest))) ≡ upto pre m ++ rest
regroup pre m rest = simp append_assoc

length-padding : (b : Bytes) → length (padding b) ≡ length b % 2
length-padding b = ground arith

length-upto :
    (pre : Bytes) (m : Stored)
    → length m.header ≡ 60
    → length (upto pre m) ≡ length pre + 60 + length m.body + length m.body % 2
length-upto pre m h = omega (
  arith,
  h,
  length-append pre (m.header ++ (m.body ++ padding m.body)),
  length-append m.header (m.body ++ padding m.body),
  length-append m.body (padding m.body),
  length-padding m.body,
)

pad_even-upto :
    (pre : Bytes) (m : Stored)
    → length pre % 2 ≡ 0
    → length m.header ≡ 60
    → pad_even (pos (length pre + 60 + length m.body)) ≡ pos (length (upto pre m))
pad_even-upto pre m e h = ground (arith, length-upto pre m h)

even-upto :
    (pre : Bytes) (m : Stored)
    → length pre % 2 ≡ 0
    → length m.header ≡ 60
    → length (upto pre m) % 2 ≡ 0
even-upto pre m e h = omega (arith, length-upto pre m h)

module _ (decode : Bytes → Text) where
  member_at-stored :
      (pre : Bytes) (m : Stored) (post : Bytes)
      → IsStored m
      → member_at decode (pos (length pre)) (pre ++ (m.header ++ (m.body ++ post)))
        ≡ some ((name_of decode m.header, m.body), pad_even (pos (length pre + 60 + length m.body)))
  unfolding member_at
  member_at-stored pre m post v =
      rw
        (
          header_at-stored pre m.header (m.body ++ post) v.header_is,
          v.size_is,
          fits pre m post (length pre + 60) v.header_is (omega arith),
          fits pre m post (length pre + 60 + length m.body) v.header_is (omega arith),
          header_at-stored pre m.header (m.body ++ post) v.header_is,
          body_slice pre m post v.header_is,
        )
        refl

  abbrev pub as_member : Stored → Text × Bytes
  as_member m = (name_of decode m.header, m.body)

  ends : (n : ℕ) (blob : Bytes) → length blob < n + 60 → member_at decode (pos n) blob ≡ none
  unfolding member_at
  ends n blob h = ground arith

  read_members-cons :
      (n : ℕ) (offset : ℤ) (blob : Bytes) (m : Text × Bytes) (next : ℤ) (ms : List (Text × Bytes))
      → member_at decode offset blob ≡ some (m, next)
      → read_members decode n next blob ≡ some ms
      → read_members decode (suc n) offset blob ≡ some (m ∷ ms)
  unfolding read_members
  read_members-cons n offset blob m next ms h k = rw (h, read_members, k, read_members) refl

  read_members-image :
      (fuel : ℕ) (pre : Bytes) (ms : List Stored) (rest : Bytes)
      → length pre % 2 ≡ 0
      → All IsStored ms
      → length rest < 60
      → length ms < fuel
      → read_members decode fuel (pos (length pre)) (pre ++ (image ms ++ rest))
        ≡ some (map as_member ms)
  unfolding read_members
  read_members-image zero pre ms rest e v r f = absurd (omega arith)
  read_members-image (suc fuel) pre [] rest e v r f =
      rw (ends (length pre) (pre ++ rest) (omega (arith, length-append pre rest)), read_members)
        refl
  read_members-image (suc fuel) pre (m ∷ ms) rest e v r f = rw (nested pre m ms rest) (
      read_members-cons fuel (pos (length pre))
        (pre ++ (m.header ++ (m.body ++ (padding m.body ++ (image ms ++ rest))))) (as_member m)
        (pad_even (pos (length pre + 60 + length m.body))) (map as_member ms)
        (member_at-stored pre m (padding m.body ++ (image ms ++ rest)) v.0)
        (rw (pad_even-upto pre m e v.0.header_is, regroup pre m (image ms ++ rest))
          (read_members-image fuel (upto pre m) ms rest (even-upto pre m e v.0.header_is) v.1 r
            (omega arith))))

  -- An archive whose members stand one behind the other, with a pad byte after an odd body, is read
  -- back in order, but for the members whose name starts with two slashes; a rest that is too short
  -- for a header is ignored.
  pub parse_ar-image :
      (fuel : ℕ) (ms : List Stored) (rest : Bytes)
      → All IsStored ms
      → length rest < 60
      → length ms < fuel
      → parse_ar decode fuel (magic ++ (image ms ++ rest))
        ≡ members (without_tables (map as_member ms))
  unfolding parse_ar
  parse_ar-image fuel ms rest v r f = rw (read_members-image fuel magic ms rest refl v r f) refl
