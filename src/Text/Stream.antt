-- ===== src/Text/Stream.antt =====
-- `std::istringstream` in the C locale, as the collectors use it: `>>` into a string and into a
-- `uint64_t`, and `std::getline`. A stream is the text that is left of it.
pub mod Reads
use pulse_mesh.Base.{
  ℕ, ◌-◌, ◌%◌, ◌^◌, Bool, ◌||◌, ◌&&◌, Text, List, [], ◌∷◌, ltb, leb, ◌==◌, if◌then◌else◌,
}
use pulse_mesh.Text.Digits.{read_digits, starts_digit}

-- `std::isspace`.
abbrev pub is_space : ℕ → Bool
is_space c = c == 32 || (leb 9 c && leb c 13)

unfoldable pub skip_space : Text → Text
skip_space [] = []
skip_space (c ∷ s) = if is_space c then skip_space s else c ∷ s

-- The characters before the next space, and the text from there on.
unfoldable pub take_word : Text → Text × Text
take_word [] = ([], [])
take_word (c ∷ s) =
    let rest = take_word s in if is_space c then ([], c ∷ s) else (c ∷ rest.0, rest.1)

-- `>>` into an empty string. The word is empty if nothing is left, and then the stream fails.
unfoldable pub read_word : Text → Text × Text
unfolding skip_space take_word
read_word s = take_word (skip_space s)

-- What `>>` into a number leaves: its value and the text behind it, or the value that a failed
-- extraction writes.
pub data Extracted : Type 0 where
  got : ℕ → Text → Extracted
  failed : ℕ → Extracted

abbrev pub max_u64 : ℕ
max_u64 = 2 ^ 64 - 1

unfoldable pub read_unsigned : Text → Extracted
unfolding read_digits
read_unsigned s =
    let r = read_digits 0 s in
    if starts_digit s then if ltb r.0 (2 ^ 64) then got r.0 r.1 else failed max_u64 else failed 0

-- A minus sign negates an unsigned number modulo 2^64.
abbrev pub negate : Extracted → Extracted
negate (got v rest) = got ((2 ^ 64 - v) % 2 ^ 64) rest
negate (failed v) = failed v

unfoldable pub read_signed : Text → Extracted
unfolding read_unsigned
read_signed [] = failed 0
read_signed (c ∷ s) =
    if c == b'-'
    then negate (read_unsigned s)
    else if c == b'+'
    then read_unsigned s
    else read_unsigned (c ∷ s)

-- `>>` into a `uint64_t`.
unfoldable pub read_u64 : Text → Extracted
unfolding skip_space read_signed
read_u64 s = read_signed (skip_space s)

abbrev pub cons_line : ℕ → List Text → List Text
cons_line c [] = (c ∷ []) ∷ []
cons_line c (line ∷ rest) = (c ∷ line) ∷ rest

-- The lines that a loop on `std::getline` sees: a newline ends a line, and so does the end of the
-- text behind other characters.
unfoldable pub lines : Text → List Text
lines [] = []
lines (c ∷ s) = let rest = lines s in if c == b'\n' then [] ∷ rest else cons_line c rest
