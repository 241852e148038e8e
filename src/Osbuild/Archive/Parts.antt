-- ===== src/Osbuild/Archive/Parts.antt =====
-- buster/osbuild/deb.py: what the members are that `parse_ar` returns.
use mathlib.Core.Path.{subst}
use aioperator.Prelude.{
  ℕ, zero, suc, ◌+◌, ◌-◌, ◌≤◌, min, Option, none, some, List, [], ◌∷◌, ◌≡◌, ◌⊎◌, inl, inr, refl, ap,
  ◌∙◌, Bool-cases, Option-cases, length, length-take, length-drop, take, drop, All, ℤ, pos, negsuc,
  arith, codes,
}
use aioperator.Prelude.Strings.{Text, slice, has_prefix}
use aioperator.Osbuild.Archive.{
  Bytes, magic, size_of, header_at, name_of, member_at, read_members, parse_ar, members,
  out_of_fuel, not_an_archive, without_tables, Archive, prepend, finish,
}
use aioperator.Osbuild.Archive.Ends.{
  IsReached, first, further, HasNegativeSize, pad_even-Moves, member_at-no_size, member_at-fits,
}

-- A member of the archive: behind a header that the reader comes to stand as many bytes as the header
-- says, and they are the member; the name is that of the header.
pub record IsMember (decode : Bytes → Text) (blob : Bytes) (m : Text × Bytes) : Type 0 where
  pub start : ℕ
  pub size : ℕ
  pub reached : IsReached decode blob (pos start)
  pub size_is : size_of (header_at (pos start) blob) ≡ some (pos size)
  pub name_is : m.0 ≡ name_of decode (header_at (pos start) blob)
  pub body_is : m.1 ≡ take size (drop (start + 60) blob)
  pub whole : length m.1 ≡ size

slice_lem :
    (blob : Bytes) (a n : ℕ)
    → a + n ≤ length blob
    → slice blob (pos a) (pos (a + n)) ≡ take n (drop a blob)
slice_lem blob a n h =
    let start : min a (length blob) ≡ a = omega (arith, h) in
    let size : min (a + n) (length blob) - min a (length blob) ≡ n = omega (arith, h) in
    rw (size, start) refl

module _ (decode : Bytes → Text) (blob : Bytes) where
  member_at-holds :
      (o n : ℕ) (m : Text × Bytes) (next : ℤ)
      → size_of (header_at (pos o) blob) ≡ some (pos n)
      → member_at decode (pos o) blob ≡ some (m, next)
      → m ≡ (name_of decode (header_at (pos o) blob), slice blob (pos (o + 60)) (pos (o + 60 + n)))
  unfolding member_at
  member_at-holds o n m next e h = ground (arith, rw e at h)

  member_at-IsMember :
      (o n : ℕ) (m : Text × Bytes) (next : ℤ)
      → IsReached decode blob (pos o)
      → size_of (header_at (pos o) blob) ≡ some (pos n)
      → member_at decode (pos o) blob ≡ some (m, next)
      → IsMember decode blob m
  member_at-IsMember o n m next r e h =
      let (le, _) = member_at-fits decode blob o m next n e h in
      let is = member_at-holds o n m next e h in
      let body : m.1 ≡ take n (drop (o + 60) blob) =
        ap (λ (x : Text × Bytes). x.1) is ∙ slice_lem blob (o + 60) n le in
      record {
        start = o;
        size = n;
        reached = r;
        size_is = e;
        name_is = ap (λ (x : Text × Bytes). x.0) is;
        body_is = body;
        whole = omega (
          arith,
          ap length body,
          length-take n (drop (o + 60) blob),
          length-drop (o + 60) blob,
          le,
        );
      }

  abbrev AllMembers : Option (List (Text × Bytes)) → Type 0
  AllMembers none = Unit
  AllMembers (some ms) = All (IsMember decode blob) ms

  AllMembers-prepend :
      (m : Text × Bytes) (o : Option (List (Text × Bytes)))
      → IsMember decode blob m
      → AllMembers o
      → AllMembers (prepend m o)
  AllMembers-prepend m none h all = tt
  AllMembers-prepend m (some ms) h all = (h, all)

  without_tables-All :
      (ms : List (Text × Bytes))
      → All (IsMember decode blob) ms
      → All (IsMember decode blob) (without_tables ms)
  without_tables-All [] all = tt
  without_tables-All (m ∷ ms) all = elim (Bool-cases (has_prefix (codes "//") m.0)) [
    | inl e ↦ rw e (without_tables-All ms all.1)
    | inr e ↦ rw e (all.0, without_tables-All ms all.1)
  ]

  read_members-AllMembers :
      (fuel o : ℕ)
      → IsReached decode blob (pos o)
      → AllMembers (read_members decode fuel (pos o) blob) ⊎ HasNegativeSize decode blob
  unfolding read_members
  read_members-AllMembers zero o r = inl tt
  read_members-AllMembers (suc fuel) o r = elim (Option-cases (member_at decode (pos o) blob)) [
    | inl e ↦ inl (rw (e, read_members) tt)
    | inr ((m, next), e) ↦ elim (Option-cases (size_of (header_at (pos o) blob))) [
      | inl q ↦ absurd (member_at-no_size decode blob o m next q e)
      | inr (negsuc n, q) ↦ inr (o, (n, r, q))
      | inr (pos n, q) ↦
          let (le, is) = member_at-fits decode blob o m next n q e in
          let (k, at, _, _) = pad_even-Moves blob o (o + 60 + n) (omega arith) le in
          let behind : IsReached decode blob (pos k) =
            subst (IsReached decode blob) (is ∙ at) (further r e) in
          elim (read_members-AllMembers fuel k behind) [
            | inr z ↦ inr z
            | inl all ↦ inl (
                rw (e, read_members, is ∙ at)
                  (AllMembers-prepend m (read_members decode fuel (pos k) blob)
                    (member_at-IsMember o n m next r q e) all))
          ]
    ]
  ]

  abbrev Members : Archive → Type 0
  Members not_an_archive = Unit
  Members out_of_fuel = Unit
  Members (members ms) = All (IsMember decode blob) ms

  finish-Members : (o : Option (List (Text × Bytes))) → AllMembers o → Members (finish o)
  finish-Members none q = tt
  finish-Members (some rows) q = without_tables-All rows q

  -- Unless a header that the reader comes to has a negative size, every member that `parse_ar` returns
  -- stands whole in the archive behind a header that the reader comes to: it has the name of that header,
  -- is as long as the header says, and is what follows it.
  pub parse_ar-IsMember :
      (fuel : ℕ) (ms : List (Text × Bytes))
      → parse_ar decode fuel blob ≡ members ms
      → All (IsMember decode blob) ms ⊎ HasNegativeSize decode blob
  unfolding parse_ar
  parse_ar-IsMember fuel ms h = elim (Bool-cases (has_prefix magic blob)) [
    | inr e ↦ absurd (ground (arith, h, e))
    | inl e ↦ elim (read_members-AllMembers fuel 8 first) [
      | inr z ↦ inr z
      | inl all ↦
          inl
            (subst Members (rw e at h) (finish-Members (read_members decode fuel (pos 8) blob) all))
    ]
  ]
