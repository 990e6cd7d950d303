-- ===== src/TimeSeriesStore/PageToken/RoundTrip.antt =====
-- `decode_page_token` of in_memory_time_series_store.cpp on what `encode_page_token` writes.
use pulse_mesh.Base.{
  ℕ, suc, ◌<◌, ◌≤◌, ◌^◌, ◌≡◌, refl, sym, ap, ◌∙◌, false, Text, ℤ, pos, negsuc, FitsInt64, [], ◌∷◌,
  ◌++◌, some, arith, ◌==◌, append-nil, All, is_empty,
}
use pulse_mesh.Text.Digits.{
  to_string, to_string_ℤ, to_string-All, IsDigit, from_chars_i64, from_chars_i64-to_string,
}
use pulse_mesh.TimeSeriesStore.PageToken.{
  RangePageCursor, page_token_prefix, parse_integer, take_token_field, check_cursor,
  decode_page_token, decode_last, encode_page_token,
}

abbrev NotColon : ℕ → Type 0
NotColon c = (c == b':') ≡ false

take_token_field-append :
    (xs rest : Text) → All NotColon xs → take_token_field (xs ++ (b':' ∷ rest)) ≡ some (xs, rest)
unfolding take_token_field
take_token_field-append [] rest a = refl
take_token_field-append (x ∷ xs) rest a = rw (a.0, take_token_field-append xs rest a.1)

digits_no_colon : (xs : Text) → All IsDigit xs → All NotColon xs
digits_no_colon [] a = tt
digits_no_colon (x ∷ xs) a = (let h = a.0 in ground arith, digits_no_colon xs a.1)

to_string_no_colon : (n : ℕ) → All NotColon (to_string n)
to_string_no_colon n = digits_no_colon (to_string n) (to_string-All n)

to_string_ℤ_no_colon : (z : ℤ) → All NotColon (to_string_ℤ z)
unfolding to_string_ℤ
to_string_ℤ_no_colon (pos n) = to_string_no_colon n
to_string_ℤ_no_colon (negsuc n) = (refl, to_string_no_colon (suc n))

parse_integer-to_string_ℤ : (z : ℤ) → FitsInt64 z → parse_integer (to_string_ℤ z) ≡ some z
unfolding parse_integer
parse_integer-to_string_ℤ z h =
    let e : from_chars_i64 (to_string_ℤ z) ≡ some (z, []) =
      ap from_chars_i64 (sym (append-nil (to_string_ℤ z))) ∙ from_chars_i64-to_string z [] h refl in
    rw e

parse_integer-to_string : (n : ℕ) → n < 2 ^ 63 → parse_integer (to_string n) ≡ some (pos n)
parse_integer-to_string n h = unfold to_string_ℤ in parse_integer-to_string_ℤ (pos n) h

-- The cursors that the store makes: positive event IDs, none above the snapshot, all in range.
pub record IsCursor (c : RangePageCursor) : Type 0 where
  pub positive : 0 < c.event_id
  pub covered : c.event_id ≤ c.snapshot_event_id
  pub snapshot_fits : c.snapshot_event_id < 2 ^ 63
  pub timestamp_fits : FitsInt64 c.timestamp_ms

decode_fields :
    (fields snapshot rest timestamp event : Text)
    → take_token_field fields ≡ some (snapshot, rest)
    → take_token_field rest ≡ some (timestamp, event)
    → decode_page_token (page_token_prefix ++ fields) ≡ decode_last snapshot timestamp event
unfolding decode_page_token
decode_fields fields snapshot rest timestamp event e f = ground arith

decode_numbers :
    (c : RangePageCursor)
    → IsCursor c
    → check_cursor (some (pos c.snapshot_event_id)) (some c.timestamp_ms) (some (pos c.event_id))
      ≡ some c
decode_numbers c v = ground arith

-- A cursor with a positive event ID that is not above its snapshot, with all numbers in the range of
-- `int64_t`, is decoded from its token as it was.
pub decode-encode :
    (c : RangePageCursor) → IsCursor c → decode_page_token (encode_page_token c) ≡ some c
unfolding encode_page_token
decode-encode c v =
    decode_fields _ _ _ _ _
      (take_token_field-append (to_string c.snapshot_event_id)
        (to_string_ℤ c.timestamp_ms ++ (b':' ∷ to_string c.event_id))
        (to_string_no_colon c.snapshot_event_id))
      (take_token_field-append (to_string_ℤ c.timestamp_ms) (to_string c.event_id)
        (to_string_ℤ_no_colon c.timestamp_ms))
    ∙ rw
        (
          parse_integer-to_string c.snapshot_event_id v.snapshot_fits,
          parse_integer-to_string_ℤ c.timestamp_ms v.timestamp_fits,
          parse_integer-to_string c.event_id
              (let a = v.covered in let b = v.snapshot_fits in omega arith),
        )
        (decode_numbers c v)

-- A token is never empty.
pub is_empty-encode : (c : RangePageCursor) → is_empty (encode_page_token c) ≡ false
unfolding encode_page_token
is_empty-encode c = refl
