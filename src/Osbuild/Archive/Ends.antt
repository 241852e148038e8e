-- ===== src/Osbuild/Archive/Ends.antt =====
-- buster/osbuild/deb.py: where the loop of `parse_ar` ends.
use mathlib.Core.Bool.{true≢false}
use mathlib.Core.Path.{subst}
use aioperator.Prelude.{
  ℕ, zero, suc, ◌+◌, ◌%◌, ◌==◌, ◌≤◌, ◌<◌, none, some, [], ◌∷◌, ◌++◌, ◌≡◌, ◌≢◌, ◌⊎◌, inl, inr, refl,
  sym, true, Bool-cases, Option-cases, length, length-append, ℤ, pos, negsuc, arith,
}
use aioperator.Prelude.Strings.{Text, has_prefix}
use aioperator.Osbuild.Archive.{
  Bytes, magic, size_of, pad_even, header_at, name_of, member_at, read_members, parse_ar,
  out_of_fuel,
}
use aioperator.Osbuild.Archive.Image.{header_at-stored}

module _ (decode : Bytes → Text) where
  -- The offsets at which the loop reads a header: the first is 8, and each round leads to the next.
  pub data IsReached (blob : Bytes) : ℤ → Type 0 where
    first : IsReached blob (pos 8)
    further :
        {o next : ℤ} {m : Text × Bytes}
        → IsReached blob o
        → member_at decode o blob ≡ some (m, next)
        → IsReached blob next

  -- A header that the loop reads has a negative number in its size field.
  abbrev pub HasNegativeSize : Bytes → Type 0
  HasNegativeSize blob =
      (o : ℕ) × ((n : ℕ) × IsReached blob (pos o)
        × (size_of (header_at (pos o) blob) ≡ some (negsuc n)))

-- A round moves on by a header at least, and not past the end but for the pad byte.
abbrev pub Moves : Bytes → ℕ → ℤ → Type 0
Moves blob o next = (n : ℕ) × (next ≡ pos n) × (o + 60 ≤ n) × (n ≤ length blob + 1)

pub pad_even-Moves :
    (blob : Bytes) (o k : ℕ) → o + 60 ≤ k → k ≤ length blob → Moves blob o (pad_even (pos k))
pad_even-Moves blob o k a b = elim (Bool-cases (k % 2 == 1)) [
  | inl e ↦ rw e (k + 1, refl, omega arith, omega arith)
  | inr e ↦ rw e (k, refl, omega arith, omega arith)
]

module _ (decode : Bytes → Text) (blob : Bytes) (o : ℕ) (m : Text × Bytes) (next : ℤ) where
  pub member_at-no_size :
      size_of (header_at (pos o) blob) ≡ none → member_at decode (pos o) blob ≢ some (m, next)
  unfolding member_at
  member_at-no_size e h = ground (arith, rw e at h)

  pub member_at-fits :
      (n : ℕ)
      → size_of (header_at (pos o) blob) ≡ some (pos n)
      → member_at decode (pos o) blob ≡ some (m, next)
      → (o + 60 + n ≤ length blob) × (next ≡ pad_even (pos (o + 60 + n)))
  unfolding member_at
  member_at-fits n e h = ground (arith, rw e at h)

  member_at-cases :
      IsReached decode blob (pos o)
      → member_at decode (pos o) blob ≡ some (m, next)
      → HasNegativeSize decode blob ⊎ Moves blob o next
  member_at-cases reached h = elim (Option-cases (size_of (header_at (pos o) blob))) [
    | inl e ↦ absurd (member_at-no_size e h)
    | inr (negsuc n, e) ↦ inl (o, (n, reached, e))
    | inr (pos n, e) ↦
        let (le, is) = member_at-fits n e h in
        inr (rw is (pad_even-Moves blob o (o + 60 + n) (omega arith) le))
  ]

length-has_prefix : (p s : Text) → has_prefix p s ≡ true → length p ≤ length s
length-has_prefix [] s h = omega arith
length-has_prefix (c ∷ p) [] h = absurd (true≢false (sym h))
length-has_prefix (c ∷ p) (d ∷ s) h = ground (arith, length-has_prefix p s)

module _ (decode : Bytes → Text) where
  read_members_halts :
      (fuel : ℕ) (blob : Bytes) (o : ℕ)
      → IsReached decode blob (pos o)
      → length blob + 1 < fuel + o
      → o ≤ length blob + 1
      → (read_members decode fuel (pos o) blob ≢ none) ⊎ HasNegativeSize decode blob
  unfolding read_members
  read_members_halts zero blob o reached h le = absurd (omega arith)
  read_members_halts (suc fuel) blob o reached h le =
      elim (Option-cases (member_at decode (pos o) blob)) [
        | inl e ↦ inl (λ q. ground (arith, e))
        | inr ((m, next), e) ↦ elim (member_at-cases decode blob o m next reached e) [
          | inl q ↦ inr q
          | inr (n, is, far, near) ↦
              elim (read_members_halts fuel blob n
                (subst (IsReached decode blob) is (further reached e)) (omega arith) near) [
                  | inl r ↦ inl (λ q. ground (arith, e, is, r))
                  | inr r ↦ inr r
                ]
        ]
      ]

  -- The size field that stands sixty below zero leads from a header to itself.
  stuck_round :
      (header rest : Bytes)
      → length header ≡ 60
      → size_of header ≡ some (negsuc 59)
      → member_at decode (pos 8) (magic ++ (header ++ rest))
        ≡ some ((name_of decode header, []), pos 8)
  unfolding member_at
  stuck_round header rest h e =
      ground (arith, header_at-stored magic header rest h, e, length-append header rest)

  stuck :
      (fuel : ℕ) (header rest : Bytes)
      → length header ≡ 60
      → size_of header ≡ some (negsuc 59)
      → read_members decode fuel (pos 8) (magic ++ (header ++ rest)) ≡ none
  unfolding read_members
  stuck zero header rest h e = refl
  stuck (suc fuel) header rest h e =
      ground (arith, stuck_round header rest h e, stuck fuel header rest h e)

  -- An archive whose first header says that its member is minus sixty bytes long is never done: no
  -- number of rounds is enough.
  pub parse_ar-out_of_fuel :
      (fuel : ℕ) (header rest : Bytes)
      → length header ≡ 60
      → size_of header ≡ some (negsuc 59)
      → parse_ar decode fuel (magic ++ (header ++ rest)) ≡ out_of_fuel
  unfolding parse_ar
  parse_ar-out_of_fuel fuel header rest h e = rw (stuck fuel header rest h e) refl

  -- An archive is read in no more rounds than it has bytes, unless a header that the reader comes to has a
  -- negative number in its size field.
  pub parse_ar_halts :
      (blob : Bytes)
      → (parse_ar decode (length blob) blob ≢ out_of_fuel) ⊎ HasNegativeSize decode blob
  unfolding parse_ar
  parse_ar_halts blob = elim (Bool-cases (has_prefix magic blob)) [
    | inr e ↦ inl (λ q. ground (arith, e))
    | inl e ↦
        elim (read_members_halts (length blob) blob 8 first
          (omega (arith, length-has_prefix magic blob e))
          (omega (arith, length-has_prefix magic blob e))) [
            | inl r ↦ inl (λ q. ground (arith, e, r))
            | inr r ↦ inr r
          ]
  ]
