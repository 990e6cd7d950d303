-- ===== src/ProcMetricCollector.antt =====
-- cpp/client/impl/proc_metric_collector: CPU and memory metrics from /proc. Its object is used by one
-- thread. The source reader is a parameter that may have a state `W` of its own, the world that it
-- reads: the production reader's world is the file system, and a test's is its list of snapshots.
pub mod Source
pub mod Cpu
pub mod Memory
pub mod Outcome
pub mod Recovery
pub mod Counts
pub mod Tests
use pulse_mesh.Base.{
  ℕ, zero, suc, ◌+◌, ◌-◌, ◌*◌, ◌/◌, Bool, true, false, not, ◌&&◌, ◌||◌, ℤ, Text, text_eq, List, [],
  ◌∷◌, ◌++◌, Option, none, some, codes, ltb, leb, ◌==◌, if◌then◌else◌, length, Expected, ok,
  unexpected,
}
use pulse_mesh.Base.Double.{Double}
use pulse_mesh.Text.Stream.{Extracted, got, failed, max_u64, read_word, read_u64, lines}
use pulse_mesh.Wire.{Metric}
use pulse_mesh.MetricCollector.{
  MetricCollectionErrorCode, read_failed, malformed_source, invalid_counter_delta,
  MetricCollectionError, to_milliseconds,
}
use pulse_mesh.ProcMetricCollector.Source.{SourceSnapshot, collection_error, make_metric}
use pulse_mesh.ProcMetricCollector.Cpu.{CpuCounters, parse_cpu_counters}
use pulse_mesh.ProcMetricCollector.Memory.{percent, parse_memory_metrics}

abbrev pub default_stat_source : Text
default_stat_source = codes "/proc/stat"

abbrev pub default_meminfo_source : Text
default_meminfo_source = codes "/proc/meminfo"

pub record ProcMetricCollector : Type 0 where
  pub stat_source : Text
  pub meminfo_source : Text
  pub previous_cpu_counters : Option CpuCounters

unfoldable pub new : Text → Text → ProcMetricCollector
new stat_source meminfo_source = record {
  stat_source = stat_source;
  meminfo_source = meminfo_source;
  previous_cpu_counters = none;
}

-- The default constructor, less its reader `read_source`.
unfoldable pub default_collector : ProcMetricCollector
unfolding new
default_collector = new default_stat_source default_meminfo_source

-- `source_reader_`.
abbrev pub SourceReader {ω} : Type ω → Type ω
SourceReader W = Text → W → Expected MetricCollectionError Text × W

-- The files that can be opened, with their contents.
abbrev pub Files : Type 0
Files = Text → Option Text

unfoldable pub read_source : SourceReader Files
read_source source files = elim (files source) [
  | none ↦
      (unexpected (collection_error read_failed (codes "open_metric_source") source true), files)
  | some contents ↦ (ok contents, files)
]

abbrev pub invalid_delta : Text → MetricCollectionError
invalid_delta source =
    collection_error invalid_counter_delta (codes "calculate_cpu_usage") source true

module _ {ℓ} {F : Type ℓ} ⦃d : Double F⦄ where
  -- The CPU metric of two snapshots, in front of the memory metrics.
  unfoldable pub with_cpu_usage :
      Text
      → ℤ
      → CpuCounters
      → CpuCounters
      → List (Metric F)
      → Expected MetricCollectionError (List (Metric F))
  with_cpu_usage source timestamp_ms previous current metrics =
      let total_delta = current.total - previous.total in
      let idle_delta = current.idle - previous.idle in
      if leb current.total previous.total || ltb current.idle previous.idle
      then unexpected (invalid_delta source)
      else if ltb total_delta idle_delta
      then unexpected (invalid_delta source)
      else ok (
          make_metric (codes "cpu_usage_percent") (percent (total_delta - idle_delta) total_delta)
            timestamp_ms
          ∷ metrics)

  -- `collect` from where both sources are parsed.
  unfoldable pub advance :
      ℤ
      → CpuCounters
      → List (Metric F)
      → ProcMetricCollector
      → Expected MetricCollectionError (List (Metric F)) × ProcMetricCollector
  unfolding with_cpu_usage
  advance timestamp_ms current metrics c =
      let after = record c { previous_cpu_counters = some current } in
      elim c.previous_cpu_counters [
        | none ↦ (ok metrics, after)
        | some previous ↦
            (with_cpu_usage c.stat_source timestamp_ms previous current metrics, after)
      ]

  -- `collect` from where both sources are read.
  unfoldable pub parse_sources :
      ℤ
      → Text
      → Text
      → ProcMetricCollector
      → Expected MetricCollectionError (List (Metric F)) × ProcMetricCollector
  unfolding advance parse_cpu_counters parse_memory_metrics
  parse_sources timestamp_ms stat meminfo c =
      elim (parse_cpu_counters (record { contents = stat; source = c.stat_source })) [
        | unexpected e ↦ (unexpected e, c)
        | ok current ↦
            elim (parse_memory_metrics {F = F}
              (record { contents = meminfo; source = c.meminfo_source }) timestamp_ms) [
                | unexpected e ↦ (unexpected e, c)
                | ok metrics ↦ advance timestamp_ms current metrics c
              ]
      ]

module _ {ℓ ω} {F : Type ℓ} ⦃d : Double F⦄ {W : Type ω} (read : SourceReader W) where
  unfoldable pub collect :
      ℤ
      → ProcMetricCollector
      → W
      → Expected MetricCollectionError (List (Metric F)) × ProcMetricCollector × W
  unfolding parse_sources
  collect sampled_at c w =
      let (stat, after_stat) = read c.stat_source w in
      elim stat [
        | unexpected e ↦ (unexpected e, c, after_stat)
        | ok stat_contents ↦
            let (meminfo, after_meminfo) = read c.meminfo_source after_stat in
            elim meminfo [
              | unexpected e ↦ (unexpected e, c, after_meminfo)
              | ok meminfo_contents ↦
                  let (result, after) =
                    parse_sources (to_milliseconds sampled_at) stat_contents meminfo_contents c in
                  (result, after, after_meminfo)
            ]
      ]
