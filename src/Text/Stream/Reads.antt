-- ===== src/Text/Stream/Reads.antt =====
-- What `>>` reads of text that was written with spaces between its words and numbers.
use pulse_mesh.Base.{
  ℕ, zero, suc, ◌^◌, ◌<◌, ◌≤◌, ◌≡◌, refl, ap, ◌∙◌, true, false, Text, [], ◌∷◌, ◌++◌, arith, ◌==◌,
  All,
}
use pulse_mesh.Text.Digits.{to_string, starts_digit, starts_digit-to_string, read_digits_back}
use pulse_mesh.Text.Stream.{
  is_space, skip_space, take_word, read_word, got, failed, max_u64, read_unsigned, read_signed,
  read_u64,
}

-- One space or more before what follows.
abbrev pub blanks : ℕ → Text
blanks zero = []
blanks (suc n) = 32 ∷ blanks n

abbrev pub IsBlack : ℕ → Type 0
IsBlack c = is_space c ≡ false

-- The text goes on with a space, or ends.
abbrev pub EndsWord : Text → Type 0
EndsWord [] = Unit
EndsWord (c ∷ s) = is_space c ≡ true

pub skip_space-blanks : (n : ℕ) (s : Text) → skip_space (blanks n ++ s) ≡ skip_space s
unfolding skip_space
skip_space-blanks zero s = refl
skip_space-blanks (suc n) s = skip_space-blanks n s

skip_space-digit : (s : Text) → starts_digit s ≡ true → skip_space s ≡ s
unfolding skip_space
skip_space-digit [] h = refl
skip_space-digit (c ∷ s) h = let e : is_space c ≡ false = ground arith in rw e refl

read_signed-digit : (s : Text) → starts_digit s ≡ true → read_signed s ≡ read_unsigned s
unfolding read_signed
read_signed-digit [] h = absurd (cc)
read_signed-digit (c ∷ s) h =
    let e : (c == b'-') ≡ false = ground arith in
    let f : (c == b'+') ≡ false = ground arith in rw (e, f) refl

read_u64-digit :
    (n : ℕ) (s : Text) → starts_digit s ≡ true → read_u64 (blanks n ++ s) ≡ read_unsigned s
unfolding read_u64
read_u64-digit n s h =
    ap read_signed (skip_space-blanks n s ∙ skip_space-digit s h) ∙ read_signed-digit s h

-- A number that was printed is read back, up to text that does not go on with a digit.
pub read_u64-to_string :
    (gap n : ℕ) (rest : Text)
    → n < 2 ^ 64
    → starts_digit rest ≡ false
    → read_u64 (blanks gap ++ (to_string n ++ rest)) ≡ got n rest
unfolding read_unsigned
read_u64-to_string gap n rest h s =
    read_u64-digit gap (to_string n ++ rest) (starts_digit-to_string n rest)
    ∙ rw (read_digits_back n rest s, starts_digit-to_string n rest) (ground arith)

-- A number that is out of range is read as the largest one, and the stream fails.
pub read_u64-overflow :
    (gap n : ℕ) (rest : Text)
    → 2 ^ 64 ≤ n
    → starts_digit rest ≡ false
    → read_u64 (blanks gap ++ (to_string n ++ rest)) ≡ failed max_u64
unfolding read_unsigned
read_u64-overflow gap n rest h s =
    read_u64-digit gap (to_string n ++ rest) (starts_digit-to_string n rest)
    ∙ rw (read_digits_back n rest s, starts_digit-to_string n rest) (ground arith)

take_word-append :
    (word rest : Text) → All IsBlack word → EndsWord rest → take_word (word ++ rest) ≡ (word, rest)
unfolding take_word
take_word-append [] [] a e = refl
take_word-append [] (c ∷ s) a e = rw e refl
take_word-append (x ∷ xs) rest a e = rw (a.0, take_word-append xs rest a.1 e) refl

-- A word is read up to the space behind it.
pub read_word-append :
    (c : ℕ) (word rest : Text)
    → All IsBlack (c ∷ word)
    → EndsWord rest
    → read_word (c ∷ (word ++ rest)) ≡ (c ∷ word, rest)
unfolding read_word skip_space
read_word-append c word rest a e = rw a.0 (take_word-append (c ∷ word) rest a e)
