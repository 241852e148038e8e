-- ===== src/Osbuild/Elf.antt =====
-- buster/osbuild/elf.py: the ELF header, as far as the architecture of a file. Bytes are numbers.
mod Tests
use aioperator.Prelude.{
  ℕ, zero, suc, ◌+◌, ◌*◌, ◌/◌, ◌%◌, ◌<◌, Bool, true, false, ◌||◌, ◌&&◌, not, Option, none, some,
  List, [], ◌∷◌, ◌++◌, ◌≡◌, ◌⊎◌, inl, inr, refl, ap, sym, ◌∙◌, if◌then◌else◌, ltb, ◌==◌, length,
  arith, length-append,
}
use aioperator.Prelude.Strings.{has_prefix}

pub data Endian : Type 0 where
  little big : Endian

pub record ElfHeader : Type 0 where
  pub e_class : ℕ
  pub endian : Endian
  pub e_machine : ℕ

unfoldable pub bits : ElfHeader → ℕ
bits h = if h.e_class == 1 then 32 else 64

-- `matches`
unfoldable pub does_match : ElfHeader → ℕ → ℕ → Bool
does_match h elf_machine elf_class = h.e_machine == elf_machine && h.e_class == elf_class

-- `data[i]` of bytes that are there.
abbrev pub byte : ℕ → List ℕ → ℕ
byte i [] = 0
byte zero (b ∷ bs) = b
byte (suc i) (b ∷ bs) = byte i bs

abbrev pub magic : List ℕ
magic = 127 ∷ b'E' ∷ b'L' ∷ b'F' ∷ []

-- `struct.unpack_from(fmt + "H", data, i)[0]`
abbrev pub half_word : Endian → ℕ → List ℕ → ℕ
half_word little i blob = byte i blob + 256 * byte (i + 1) blob
half_word big i blob = 256 * byte i blob + byte (i + 1) blob

unfoldable pub parse_elf : List ℕ → Option ElfHeader
parse_elf blob =
    if ltb (length blob) 20 || not (has_prefix magic blob)
    then none
    else let endian = if byte 5 blob == 2 then big else little in
      some (record { e_class = byte 4 blob; endian = endian; e_machine = half_word endian 18 blob })

-- The two bytes of a number in the file's order.
abbrev pub half_bytes : Endian → ℕ → List ℕ
half_bytes little m = m % 256 ∷ m / 256 ∷ []
half_bytes big m = m / 256 ∷ m % 256 ∷ []

abbrev pub encoding : Endian → ℕ
encoding little = 1
encoding big = 2

-- A header whose bytes between the encoding and the machine are `between`.
abbrev pub encode : ElfHeader → List ℕ → List ℕ → List ℕ
encode h between rest =
    magic ++ h.e_class ∷ encoding h.endian ∷ (between ++ (half_bytes h.endian h.e_machine ++ rest))

byte-length : (xs : List ℕ) (b : ℕ) (ys : List ℕ) → byte (length xs) (xs ++ b ∷ ys) ≡ b
byte-length [] b ys = refl
byte-length (x ∷ xs) b ys = byte-length xs b ys

byte-suc : (xs : List ℕ) (b c : ℕ) (ys : List ℕ) → byte (suc (length xs)) (xs ++ b ∷ c ∷ ys) ≡ c
byte-suc [] b c ys = refl
byte-suc (x ∷ xs) b c ys = byte-suc xs b c ys

byte-12 :
    (xs : List ℕ) (b c : ℕ) (ys : List ℕ)
    → length xs ≡ 12
    → (byte 12 (xs ++ b ∷ c ∷ ys) ≡ b) × (byte 13 (xs ++ b ∷ c ∷ ys) ≡ c)
byte-12 xs b c ys h = (
  ap (λ n. byte n (xs ++ b ∷ c ∷ ys)) (sym h) ∙ byte-length xs b (c ∷ ys),
  ap (λ n. byte (suc n) (xs ++ b ∷ c ∷ ys)) (sym h) ∙ byte-suc xs b c ys,
)

long_enough :
    (xs : List ℕ) (b c : ℕ) (ys : List ℕ)
    → length xs ≡ 12
    → ltb (suc (suc (suc (suc (suc (suc (length (xs ++ b ∷ c ∷ ys)))))))) 20 ≡ false
long_enough xs b c ys h = ground (arith, length-append xs (b ∷ c ∷ ys))

-- A header is read back in the byte order that it names, whatever stands between and behind.
pub parse_elf-encode :
    (c m : ℕ) (e : Endian) (between rest : List ℕ)
    → length between ≡ 12
    → let h : ElfHeader = record { e_class = c; endian = e; e_machine = m } in
      parse_elf (encode h between rest) ≡ some h
unfolding parse_elf
parse_elf-encode c m little between rest h =
    let (low, high) = byte-12 between (m % 256) (m / 256) rest h in
    rw (long_enough between (m % 256) (m / 256) rest h, low, high)
      (ap (λ n. some (record { e_class = c; endian = little; e_machine = n })) (omega arith))
parse_elf-encode c m big between rest h =
    let (high, low) = byte-12 between (m / 256) (m % 256) rest h in
    rw (long_enough between (m / 256) (m % 256) rest h, high, low)
      (ap (λ n. some (record { e_class = c; endian = big; e_machine = n })) (omega arith))
