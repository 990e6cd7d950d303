-- ===== src/ProcMetricCollector/Cpu.antt =====
-- `parse_cpu_counters` of proc_metric_collector.cpp.
pub mod Rows
use pulse_mesh.Base.{
  ℕ, zero, suc, ◌+◌, ◌-◌, ◌*◌, ◌/◌, Bool, true, false, not, ◌&&◌, ◌||◌, ℤ, Text, text_eq, List, [],
  ◌∷◌, ◌++◌, Option, none, some, codes, ltb, leb, ◌==◌, if◌then◌else◌, length, Expected, ok,
  unexpected,
}
use pulse_mesh.Base.Double.{Double}
use pulse_mesh.Text.Stream.{Extracted, got, failed, max_u64, read_word, read_u64, lines}
use pulse_mesh.Wire.{Metric}
use pulse_mesh.MetricCollector.{
  MetricCollectionErrorCode, read_failed, malformed_source, invalid_counter_delta,
  MetricCollectionError, to_milliseconds,
}
use pulse_mesh.ProcMetricCollector.Source.{SourceSnapshot, collection_error, make_metric}

pub record CpuCounters : Type 0 where
  pub total : ℕ
  pub idle : ℕ

abbrev pub malformed_cpu {ℓ} : {A : Type ℓ} → SourceSnapshot → Expected MetricCollectionError A
malformed_cpu s =
    unexpected (collection_error malformed_source (codes "parse_cpu_counters") s.source false)

abbrev pub zero_cells : ℕ → List ℕ
zero_cells zero = []
zero_cells (suc n) = 0 ∷ zero_cells n

-- The loop that fills the array, with the cells that are left: the fields that were read, and the
-- cells behind them, of which a failed extraction writes the first.
unfoldable pub read_fields : ℕ → Text → List ℕ × List ℕ
read_fields zero s = ([], [])
read_fields (suc n) s = elim (read_u64 s) [
  | failed v ↦ ([], v ∷ zero_cells n)
  | got v rest ↦ let r = read_fields n rest in (v ∷ r.0, r.1)
]

abbrev pub cell : List ℕ → ℕ → ℕ
cell [] i = 0
cell (v ∷ vs) zero = v
cell (v ∷ vs) (suc i) = cell vs i

-- The sum of the fields, if it is representable.
unfoldable pub sum_fields : ℕ → List ℕ → Option ℕ
sum_fields total [] = some total
sum_fields total (v ∷ vs) =
    let rest = sum_fields (total + v) vs in if ltb (max_u64 - total) v then none else rest

unfoldable pub counters_of :
    SourceSnapshot → List ℕ × List ℕ → Expected MetricCollectionError CpuCounters
unfolding sum_fields
counters_of s (fields, others) =
    let idle = cell (fields ++ others) 3 in
    let waiting = cell (fields ++ others) 4 in
    if ltb (length fields) 4 then malformed_cpu s else elim (sum_fields 0 fields) [
      | none ↦ malformed_cpu s
      | some total ↦
          if ltb (max_u64 - idle) waiting
          then malformed_cpu s
          else ok (record { total = total; idle = idle + waiting })
    ]

unfoldable pub parse_cpu_counters : SourceSnapshot → Expected MetricCollectionError CpuCounters
parse_cpu_counters s =
    let (label, rest) = read_word s.contents in
    if not (text_eq label (codes "cpu"))
    then malformed_cpu s
    else counters_of s (read_fields 8 rest)
