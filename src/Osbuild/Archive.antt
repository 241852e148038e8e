-- ===== src/Osbuild/Archive.antt =====
-- buster/osbuild/deb.py: the members of an `ar` archive. Bytes are numbers; offsets are integers, as a
-- size field may hold a minus sign. `decode` is `bytes.decode("utf-8", "replace")`.
pub mod Image
pub mod Ends
pub mod Parts
mod Tests
use aioperator.Prelude.{
  ℕ, zero, suc, ◌%◌, Bool, ◌||◌, not, Option, none, some, List, [], ◌∷◌, ◌≡◌, true, if◌then◌else◌,
  ltb, ◌==◌, length, keep, ℤ, pos, negsuc, ltb_ℤ, ◌+ℤ◌, codes,
}
use aioperator.Prelude.Strings.{Text, strip, rstrip_by, has_prefix, slice, decode_ascii, int}

abbrev pub Bytes : Type 0
Bytes = List ℕ

abbrev pub header_len : ℕ
header_len = 60

abbrev pub magic : Bytes
magic = codes "!<arch>\n"

-- `size_text` and its `int`, `none` for a ValueError.
unfoldable pub size_of : Bytes → Option ℤ
size_of header = int (strip (decode_ascii (slice header (pos 48) (pos 58))))

-- `if offset % 2: offset += 1`
abbrev is_odd : ℤ → Bool
is_odd (pos n) = n % 2 == 1
is_odd (negsuc n) = n % 2 == 0

abbrev pub pad_even : ℤ → ℤ
pad_even offset = if is_odd offset then offset +ℤ pos 1 else offset

abbrev pub header_at : ℤ → Bytes → Bytes
header_at offset blob = slice blob offset (offset +ℤ pos header_len)

pub data Archive : Type 0 where
  not_an_archive : Archive
  out_of_fuel : Archive
  members : List (Text × Bytes) → Archive

abbrev pub without_tables : List (Text × Bytes) → List (Text × Bytes)
without_tables ms = keep (λ m. not (has_prefix (codes "//") m.0)) ms

-- `members.append((name, data[data_start:body_start]))`, before the members of the rounds behind it.
abbrev pub prepend : Text × Bytes → Option (List (Text × Bytes)) → Option (List (Text × Bytes))
prepend m none = none
prepend m (some ms) = some (m ∷ ms)

abbrev pub finish : Option (List (Text × Bytes)) → Archive
finish none = out_of_fuel
finish (some ms) = members (without_tables ms)

module _ (decode : Bytes → Text) where
  unfoldable pub name_of : Bytes → Text
  name_of header = rstrip_by (λ c. c == b' ' || c == b'/') (decode (slice header (pos 0) (pos 16)))

  -- A round of the loop: the member it appends and the next offset, `none` where the loop ends.
  unfoldable pub member_at : ℤ → Bytes → Option ((Text × Bytes) × ℤ)
  member_at offset blob =
      let len = pos (length blob) in
      let data_start = offset +ℤ pos header_len in
      if ltb_ℤ len data_start then none else elim (size_of (header_at offset blob)) [
        | none ↦ none
        | some size ↦
            let body_start = data_start +ℤ size in
            if ltb_ℤ len data_start || ltb_ℤ len body_start
            then none
            else some (
              (name_of (header_at offset blob), slice blob data_start body_start),
              pad_even body_start,
            )
      ]

  unfoldable pub read_members : ℕ → ℤ → Bytes → Option (List (Text × Bytes))
  unfolding member_at
  read_members zero offset blob = none
  read_members (suc fuel) offset blob = elim (member_at offset blob) [
    | none ↦ some []
    | some (m, next) ↦ prepend m (read_members fuel next blob)
  ]

  unfoldable pub parse_ar : ℕ → Bytes → Archive
  unfolding read_members
  parse_ar fuel blob =
      if has_prefix magic blob then finish (read_members fuel (pos 8) blob) else not_an_archive
