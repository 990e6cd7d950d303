-- ===== src/Text/Digits.antt =====
-- `std::to_string`, stream output of unsigned numbers and `std::from_chars`, for the bytes that they
-- write and read in the C locale.
use pulse_mesh.Base.{
  ℕ, zero, suc, ◌+◌, ◌-◌, ◌*◌, ◌/◌, ◌%◌, ◌^◌, ◌<◌, ◌≡◌, refl, ◌∙◌, inl, inr, Bool, true, false,
  ◌&&◌, Option, some, none, [], ◌∷◌, ◌++◌, arith, Text, ltb, leb, ◌==◌, if◌then◌else◌, All,
  All-append, ℤ, pos, negsuc, FitsInt64, Bool-cases, append_assoc,
}

-- The digit of a number below 16.
abbrev pub digit_char : ℕ → ℕ
digit_char d = if ltb d 10 then b'0' + d else b'a' + d - 10

-- The digits of `n` to the base `b`, most significant first; `n + 1` rounds are enough.
unfoldable pub digits_fuel : ℕ → ℕ → ℕ → Text
digits_fuel b zero n = []
digits_fuel b (suc f) n =
    let before = digits_fuel b f (n / b) in
    if ltb n b then digit_char n ∷ [] else before ++ (digit_char (n % b) ∷ [])

unfoldable pub digits : ℕ → ℕ → Text
unfolding digits_fuel
digits b n = digits_fuel b (suc n) n

-- `std::to_string` of an unsigned and of a signed number.
unfoldable pub to_string : ℕ → Text
unfolding digits
to_string n = digits 10 n

unfoldable pub to_string_ℤ : ℤ → Text
unfolding to_string
to_string_ℤ (pos n) = to_string n
to_string_ℤ (negsuc n) = b'-' ∷ to_string (suc n)

abbrev pub is_digit : ℕ → Bool
is_digit c = leb b'0' c && leb c b'9'

abbrev pub starts_digit : Text → Bool
starts_digit [] = false
starts_digit (c ∷ s) = is_digit c

-- The longest run of decimal digits: its value after `v`, and the text behind it.
unfoldable pub read_digits : ℕ → Text → ℕ × Text
read_digits v [] = (v, [])
read_digits v (c ∷ s) = if is_digit c then read_digits (v * 10 + (c - b'0')) s else (v, c ∷ s)

-- `std::from_chars` into a `uint64_t` and into an `int64_t`: the value and the text behind it, or
-- `none` for `invalid_argument` and `result_out_of_range`.
unfoldable pub from_chars_u64 : Text → Option (ℕ × Text)
unfolding read_digits
from_chars_u64 s =
    let r = read_digits 0 s in if starts_digit s && ltb r.0 (2 ^ 64) then some r else none

abbrev negated : ℕ → ℤ
negated zero = pos 0
negated (suc n) = negsuc n

unfoldable pub from_chars_i64 : Text → Option (ℤ × Text)
unfolding read_digits
from_chars_i64 [] = none
from_chars_i64 (c ∷ s) =
    let minus = read_digits 0 s in
    let plain = read_digits 0 (c ∷ s) in
    if c == b'-'
    then if starts_digit s && leb minus.0 (2 ^ 63) then some (negated minus.0, minus.1) else none
    else if is_digit c && ltb plain.0 (2 ^ 63)
    then some (pos plain.0, plain.1)
    else none

runs :
    (to_string 0 ≡ b'0' ∷ [])
    × (to_string 905 ≡ b'9' ∷ b'0' ∷ b'5' ∷ [])
    × (to_string_ℤ (negsuc 11) ≡ b'-' ∷ b'1' ∷ b'2' ∷ [])
    × (digits 16 43981 ≡ b'a' ∷ b'b' ∷ b'c' ∷ b'd' ∷ [])
    × (from_chars_u64 (b'1' ∷ b'2' ∷ b'x' ∷ []) ≡ some (12, b'x' ∷ []))
    × (from_chars_i64 (b'-' ∷ b'1' ∷ []) ≡ some (negsuc 0, []))
unfolding to_string to_string_ℤ digits from_chars_u64 from_chars_i64
runs = (refl, refl, refl, refl, refl, refl)

-- What `digits` writes is a digit, so that no separator stands among them.
abbrev pub IsDigit : ℕ → Type 0
IsDigit c = is_digit c ≡ true

digits_fuel-All : (f n : ℕ) → All IsDigit (digits_fuel 10 f n)
unfolding digits_fuel
digits_fuel-All zero n = tt
digits_fuel-All (suc f) n = elim (Bool-cases (ltb n 10)) [
  | inl small ↦ rw small (ground arith, tt)
  | inr big ↦ rw big (
      All-append IsDigit (digits_fuel 10 f (n / 10)) _ (digits_fuel-All f (n / 10))
        (ground arith, tt))
]

pub to_string-All : (n : ℕ) → All IsDigit (to_string n)
unfolding to_string digits
to_string-All n = digits_fuel-All (suc n) n

read_digits_fuel :
    (f n : ℕ) (rest : Text)
    → n < f
    → read_digits 0 (digits_fuel 10 f n ++ rest) ≡ read_digits n rest
unfolding digits_fuel read_digits
read_digits_fuel zero n rest h = elim h [ ]
read_digits_fuel (suc f) n rest h = elim (Bool-cases (ltb n 10)) [
  | inl small ↦ ground arith
  | inr big ↦
      rw (big, append_assoc)
        (read_digits_fuel f (n / 10) (digit_char (n % 10) ∷ rest) (ground arith) ∙ ground arith)
]

-- Reading back what was written goes on with the text behind it.
pub read_digits-to_string :
    (n : ℕ) (rest : Text) → read_digits 0 (to_string n ++ rest) ≡ read_digits n rest
unfolding to_string digits
read_digits-to_string n rest = read_digits_fuel (suc n) n rest (omega arith)

starts_digit-append : (xs ys : Text) → starts_digit xs ≡ true → starts_digit (xs ++ ys) ≡ true
starts_digit-append [] ys h = cc
starts_digit-append (x ∷ xs) ys h = h

digits_fuel-starts : (f n : ℕ) → n < f → starts_digit (digits_fuel 10 f n) ≡ true
unfolding digits_fuel
digits_fuel-starts zero n h = elim h [ ]
digits_fuel-starts (suc f) n h = elim (Bool-cases (ltb n 10)) [
  | inl small ↦ rw small (ground arith)
  | inr big ↦ rw big (
      starts_digit-append (digits_fuel 10 f (n / 10)) (digit_char (n % 10) ∷ [])
        (digits_fuel-starts f (n / 10) (ground arith)))
]

pub starts_digit-to_string : (n : ℕ) (rest : Text) → starts_digit (to_string n ++ rest) ≡ true
unfolding to_string digits
starts_digit-to_string n rest =
    starts_digit-append (digits_fuel 10 (suc n) n) rest (digits_fuel-starts (suc n) n (omega arith))

read_digits_stops :
    (n : ℕ) (rest : Text) → starts_digit rest ≡ false → read_digits n rest ≡ (n, rest)
unfolding read_digits
read_digits_stops n [] h = refl
read_digits_stops n (c ∷ s) h = rw h

pub read_digits_back :
    (n : ℕ) (rest : Text)
    → starts_digit rest ≡ false
    → read_digits 0 (to_string n ++ rest) ≡ (n, rest)
read_digits_back n rest h = read_digits-to_string n rest ∙ read_digits_stops n rest h

-- `from_chars` reads back what `to_string` wrote, up to text that does not begin with a digit.
pub from_chars_u64-to_string :
    (n : ℕ) (rest : Text)
    → n < 2 ^ 64
    → starts_digit rest ≡ false
    → from_chars_u64 (to_string n ++ rest) ≡ some (n, rest)
unfolding from_chars_u64
from_chars_u64-to_string n rest h s =
    rw (read_digits_back n rest s, starts_digit-to_string n rest) (ground arith)

digit_first :
    (c : ℕ) (s : Text)
    → starts_digit (c ∷ s) ≡ true
    → (n : ℕ) (rest : Text) → n < 2 ^ 63
    → read_digits 0 (c ∷ s) ≡ (n, rest)
    → from_chars_i64 (c ∷ s) ≡ some (pos n, rest)
unfolding from_chars_i64
digit_first c s d n rest h r = ground arith

from_chars_plain :
    (t : Text) (n : ℕ) (rest : Text)
    → starts_digit t ≡ true
    → n < 2 ^ 63
    → read_digits 0 t ≡ (n, rest)
    → from_chars_i64 t ≡ some (pos n, rest)
from_chars_plain [] n rest d h r = cc
from_chars_plain (c ∷ s) n rest d h r = digit_first c s d n rest h r

pub from_chars_i64-to_string :
    (z : ℤ) (rest : Text)
    → FitsInt64 z
    → starts_digit rest ≡ false
    → from_chars_i64 (to_string_ℤ z ++ rest) ≡ some (z, rest)
unfolding to_string_ℤ
from_chars_i64-to_string (pos n) rest h s =
    from_chars_plain (to_string n ++ rest) n rest (starts_digit-to_string n rest) h
      (read_digits_back n rest s)
from_chars_i64-to_string (negsuc n) rest h s =
    unfold from_chars_i64 in
    rw (read_digits_back (suc n) rest s, starts_digit-to_string (suc n) rest) (ground arith)
