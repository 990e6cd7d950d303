-- ===== src/TimeSeriesStore/PageToken.antt =====
-- The continuation tokens of `query_range`: `decode_page_token` and `encode_page_token` of
-- in_memory_time_series_store.cpp.
pub mod RoundTrip
use pulse_mesh.Base.{
  ℕ, zero, suc, Bool, ◌||◌, Text, ℤ, pos, List, [], ◌∷◌, ◌++◌, Option, none, some, codes, ltb, ◌==◌,
  if◌then◌else◌, refl, ◌≡◌, negsuc,
}
use mathlib.Core.Option
use pulse_mesh.Text.Digits.{to_string, to_string_ℤ, from_chars_i64}

-- The last sample of a page, and the newest event of the snapshot that the pages show. A cursor's
-- event IDs are positive wherever one is made.
pub record RangePageCursor : Type 0 where
  pub snapshot_event_id : ℕ
  pub timestamp_ms : ℤ
  pub event_id : ℕ

abbrev pub page_token_prefix : Text
page_token_prefix = codes "v1:"

abbrev complete : Option (ℤ × Text) → Option ℤ
complete (some (z, [])) = some z
complete _ = none

-- `parse_integer` into an `int64_t`; `none` is `false`. The empty text has no digits.
unfoldable pub parse_integer : Text → Option ℤ
unfolding from_chars_i64
parse_integer s = complete (from_chars_i64 s)

-- `starts_with` and `remove_prefix`.
unfoldable pub strip_prefix : Text → Text → Option Text
strip_prefix [] s = some s
strip_prefix (p ∷ ps) [] = none
strip_prefix (p ∷ ps) (c ∷ s) = if c == p then strip_prefix ps s else none

-- The field before the first `:`, and the text behind it.
unfoldable pub take_token_field : Text → Option (Text × Text)
take_token_field [] = none
take_token_field (c ∷ s) =
    if c == b':' then some ([], s) else Option.map (λ r. (c ∷ r.0, r.1)) (take_token_field s)

-- The numbers as parsed, checked: a snapshot and an event that is not newer.
abbrev check_cursor : Option ℤ → Option ℤ → Option ℤ → Option RangePageCursor
check_cursor (some (pos s)) (some t) (some (pos e)) =
    if s == 0 || e == 0 || ltb s e
    then none
    else some (record { snapshot_event_id = s; timestamp_ms = t; event_id = e })
check_cursor _ _ _ = none

abbrev decode_last : Text → Text → Text → Option RangePageCursor
decode_last snapshot timestamp event =
    check_cursor (parse_integer snapshot) (parse_integer timestamp) (parse_integer event)

unfoldable pub decode_page_token : Text → Option RangePageCursor
unfolding strip_prefix
decode_page_token token = elim (strip_prefix page_token_prefix token) [
  | none ↦ none
  | some fields ↦ elim (take_token_field fields) [
    | none ↦ none
    | some (snapshot, rest) ↦ elim (take_token_field rest) [
      | none ↦ none
      | some (timestamp, event) ↦ decode_last snapshot timestamp event
    ]
  ]
]

unfoldable pub encode_page_token : RangePageCursor → Text
encode_page_token c =
    page_token_prefix
    ++ (to_string c.snapshot_event_id
        ++ (b':' ∷ (to_string_ℤ c.timestamp_ms ++ (b':' ∷ to_string c.event_id))))
