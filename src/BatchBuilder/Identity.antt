-- ===== src/BatchBuilder/Identity.antt =====
-- The text of the batch IDs of batch_builder.cpp, and what can be read from it.
use pulse_mesh.Base.{
  ℕ, zero, suc, ◌+◌, ◌-◌, ◌*◌, ◌/◌, ◌%◌, ◌<◌, ◌≡◌, refl, sym, ap, subst, ◌∙◌, inl, inr, false, Text,
  [], ◌∷◌, ◌++◌, arith, ltb, leb, ◌==◌, if◌then◌else◌, length, All, All-append, All-append_right,
  Bool-cases,
}
use pulse_mesh.Text.Digits.{
  digit_char, digits_fuel, digits, to_string, to_string-All, IsDigit, read_digits,
  read_digits-to_string,
}
use pulse_mesh.BatchBuilder.{zeros, hex16, batch_id_at}

abbrev NotDash : ℕ → Type 0
NotDash c = (c == b'-') ≡ false

-- A text is split in one way only at its last dash.
split_last :
    (xs ys ds es : Text)
    → All NotDash ds
    → All NotDash es
    → xs ++ (b'-' ∷ ds) ≡ ys ++ (b'-' ∷ es)
    → (xs ≡ ys) × (ds ≡ es)
split_last [] [] ds es a b h = (refl, cc)
split_last [] (y ∷ ys) ds es a b h =
    let t : ds ≡ ys ++ (b'-' ∷ es) = cc in
    absurd (let d = (All-append_right NotDash ys (b'-' ∷ es) (subst (All NotDash) t a)).0 in cc)
split_last (x ∷ xs) [] ds es a b h =
    let t : es ≡ xs ++ (b'-' ∷ ds) = cc in
    absurd (let d = (All-append_right NotDash xs (b'-' ∷ ds) (subst (All NotDash) t b)).0 in cc)
split_last (x ∷ xs) (y ∷ ys) ds es a b h =
    let t : xs ++ (b'-' ∷ ds) ≡ ys ++ (b'-' ∷ es) = cc in
    let e : x ≡ y = cc in let (p, q) = split_last xs ys ds es a b t in (cc, q)

digit-NotDash : (xs : Text) → All IsDigit xs → All NotDash xs
digit-NotDash [] a = tt
digit-NotDash (x ∷ xs) a = (let h = a.0 in ground arith, digit-NotDash xs a.1)

digits_fuel-NotDash : (f n : ℕ) → All NotDash (digits_fuel 16 f n)
unfolding digits_fuel
digits_fuel-NotDash zero n = tt
digits_fuel-NotDash (suc f) n = elim (Bool-cases (ltb n 16)) [
  | inl small ↦ rw small (ground arith, tt)
  | inr big ↦ rw big (
      All-append NotDash (digits_fuel 16 f (n / 16)) _ (digits_fuel-NotDash f (n / 16))
        (ground arith, tt))
]

zeros-NotDash : (n : ℕ) → All NotDash (zeros n)
zeros-NotDash zero = tt
zeros-NotDash (suc n) = (refl, zeros-NotDash n)

hex16-NotDash : (n : ℕ) → All NotDash (hex16 n)
unfolding hex16 digits
hex16-NotDash n =
    All-append NotDash (zeros (16 - length (digits 16 n))) (digits 16 n) (zeros-NotDash _)
      (digits_fuel-NotDash (suc n) n)

to_string_injective : (m n : ℕ) → to_string m ≡ to_string n → m ≡ n
unfolding read_digits
to_string_injective m n h =
    let p = read_digits-to_string m [] in
    let q = read_digits-to_string n [] in
    let e : read_digits 0 (to_string m ++ []) ≡ read_digits 0 (to_string n ++ []) =
      ap (λ t. read_digits 0 (t ++ [])) h in
    ap (λ r. r.0) (sym p ∙ e ∙ q)

-- The number that hexadecimal digits write, after `v`.
abbrev digit_value : ℕ → ℕ
digit_value c = if leb c b'9' then c - b'0' else c - b'a' + 10

hex_value : ℕ → Text → ℕ
hex_value v [] = v
hex_value v (c ∷ s) = hex_value (v * 16 + digit_value c) s

hex_value-append : (v : ℕ) (xs ys : Text) → hex_value v (xs ++ ys) ≡ hex_value (hex_value v xs) ys
unfolding hex_value
hex_value-append v [] ys = refl
hex_value-append v (x ∷ xs) ys = hex_value-append (v * 16 + digit_value x) xs ys

hex_value-zeros : (n : ℕ) → hex_value 0 (zeros n) ≡ 0
unfolding hex_value
hex_value-zeros zero = refl
hex_value-zeros (suc n) = hex_value-zeros n

digit_value-char : (n : ℕ) → n < 16 → digit_value (digit_char n) ≡ n
digit_value-char n h = ground arith

hex_value-digits : (f n : ℕ) → n < f → hex_value 0 (digits_fuel 16 f n) ≡ n
unfolding digits_fuel hex_value
hex_value-digits zero n h = elim h [ ]
hex_value-digits (suc f) n h = elim (Bool-cases (ltb n 16)) [
  | inl small ↦ rw small (omega (arith, digit_value-char n (ground arith)))
  | inr big ↦
      rw
        (
          big,
          hex_value-append 0 (digits_fuel 16 f (n / 16)) (digit_char (n % 16) ∷ []),
          hex_value-digits f (n / 16) (ground arith),
        )
        (omega (arith, digit_value-char (n % 16) (omega arith)))
]

hex_value-hex16 : (n : ℕ) → hex_value 0 (hex16 n) ≡ n
unfolding hex16 digits
hex_value-hex16 n =
    hex_value-append 0 (zeros (16 - length (digits 16 n))) (digits 16 n)
    ∙ ap (λ v. hex_value v (digits 16 n)) (hex_value-zeros (16 - length (digits 16 n)))
    ∙ hex_value-digits (suc n) n (omega arith)

hex16_injective : (m n : ℕ) → hex16 m ≡ hex16 n → m ≡ n
hex16_injective m n h = sym (hex_value-hex16 m) ∙ ap (hex_value 0) h ∙ hex_value-hex16 n

-- Two batch IDs are equal only if the client IDs, the nonces and the sequence numbers are, whatever
-- bytes the client IDs have.
pub batch_id_at_injective :
    (client other : Text) (nonce salt sequence number : ℕ)
    → batch_id_at client nonce sequence ≡ batch_id_at other salt number
    → (client ≡ other) × (nonce ≡ salt) × (sequence ≡ number)
unfolding batch_id_at
batch_id_at_injective client other nonce salt sequence number h =
    let (p, q) =
      split_last (client ++ (b'-' ∷ hex16 nonce)) (other ++ (b'-' ∷ hex16 salt))
        (to_string sequence) (to_string number) (digit-NotDash _ (to_string-All sequence))
        (digit-NotDash _ (to_string-All number)) h in
    let (r, s) =
      split_last client other (hex16 nonce) (hex16 salt) (hex16-NotDash nonce) (hex16-NotDash salt)
        p in
    (r, hex16_injective nonce salt s, to_string_injective sequence number q)
