-- ===== src/ProcMetricCollector/Memory.antt =====
-- `parse_memory_metrics` of proc_metric_collector.cpp.
pub mod Files
use pulse_mesh.Base.{
  ℕ, zero, suc, ◌+◌, ◌-◌, ◌*◌, ◌/◌, Bool, true, false, not, ◌&&◌, ◌||◌, ℤ, Text, text_eq, List, [],
  ◌∷◌, ◌++◌, Option, none, some, codes, ltb, leb, ◌==◌, if◌then◌else◌, length, Expected, ok,
  unexpected,
}
use pulse_mesh.Base.Double.{Double}
use pulse_mesh.Text.Stream.{Extracted, got, failed, max_u64, read_word, read_u64, lines}
use pulse_mesh.Wire.{Metric}
use pulse_mesh.MetricCollector.{
  MetricCollectionErrorCode, read_failed, malformed_source, invalid_counter_delta,
  MetricCollectionError, to_milliseconds,
}
use pulse_mesh.ProcMetricCollector.Source.{SourceSnapshot, collection_error, make_metric}

abbrev pub bytes_per_kilobyte : ℕ
bytes_per_kilobyte = 1024

abbrev pub malformed_memory {ℓ} : {A : Type ℓ} → SourceSnapshot → Expected MetricCollectionError A
malformed_memory s =
    unexpected (collection_error malformed_source (codes "parse_memory_metrics") s.source false)

-- `total_kb` and `available_kb`.
pub record MemoryFields : Type 0 where
  pub total_kb : Option ℕ
  pub available_kb : Option ℕ

abbrev pub total_key : Text
total_key = codes "MemTotal:"

abbrev pub available_key : Text
available_key = codes "MemAvailable:"

unfoldable pub assign_field : Text → ℕ → MemoryFields → MemoryFields
assign_field key value m =
    if text_eq key total_key
    then record m { total_kb = some value }
    else record m { available_kb = some value }

abbrev pub is_wanted_key : Text → Bool
is_wanted_key key = text_eq key total_key || text_eq key available_key

-- One line behind its key; `none` is a malformed one.
unfoldable pub read_value : Text → Text → MemoryFields → Option MemoryFields
read_value key rest m = elim (read_u64 rest) [
  | failed v ↦ none
  | got value after ↦
      if text_eq (read_word after).0 (codes "kB") then some (assign_field key value m) else none
]

unfoldable pub read_line : Text → MemoryFields → Option MemoryFields
read_line line m =
    let (key, rest) = read_word line in
    if not (is_wanted_key key) then some m else read_value key rest m

-- The loop over the lines.
unfoldable pub read_lines : List Text → MemoryFields → Option MemoryFields
unfolding read_line
read_lines [] m = some m
read_lines (line ∷ rest) m = elim (read_line line m) [ none ↦ none | some n ↦ read_lines rest n ]

module _ {ℓ} {F : Type ℓ} ⦃d : Double F⦄ where
  -- `100.0 * part / whole`.
  abbrev pub percent : ℕ → ℕ → F
  percent part whole = d.div (d.mul (d.of_ℕ 100) (d.of_ℕ part)) (d.of_ℕ whole)

  abbrev pub memory_metrics : ℕ → ℕ → ℤ → List (Metric F)
  memory_metrics total_bytes available_bytes timestamp_ms =
      let used_bytes = total_bytes - available_bytes in
      make_metric (codes "memory_used_bytes") (d.of_ℕ used_bytes) timestamp_ms
      ∷ make_metric (codes "memory_available_bytes") (d.of_ℕ available_bytes) timestamp_ms
      ∷ make_metric (codes "memory_usage_percent") (percent used_bytes total_bytes) timestamp_ms
      ∷ []

  -- The part behind the loop.
  unfoldable pub memory_of :
      SourceSnapshot → ℤ → MemoryFields → Expected MetricCollectionError (List (Metric F))
  memory_of s timestamp_ms m = elim m.total_kb [
    | none ↦ malformed_memory s
    | some total ↦ elim m.available_kb [
      | none ↦ malformed_memory s
      | some available ↦
          if total == 0 || ltb total available || ltb (max_u64 / bytes_per_kilobyte) total
          then malformed_memory s
          else ok (
              memory_metrics (total * bytes_per_kilobyte) (available * bytes_per_kilobyte)
                timestamp_ms)
    ]
  ]

  unfoldable pub parse_memory_metrics :
      SourceSnapshot → ℤ → Expected MetricCollectionError (List (Metric F))
  unfolding memory_of
  parse_memory_metrics s timestamp_ms =
      elim (read_lines (lines s.contents) (record { total_kb = none; available_kb = none })) [
        | none ↦ malformed_memory s
        | some m ↦ memory_of s timestamp_ms m
      ]
