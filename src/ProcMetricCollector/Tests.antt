-- ===== src/ProcMetricCollector/Tests.antt =====
-- Runs of proc_metric_collector.cpp on small sources.
use pulse_mesh.Base.{
  ℕ, ◌+◌, ◌-◌, ◌^◌, ◌<◌, ◌≡◌, refl, ℤ, pos, arith, Text, text_eq, List, [], ◌∷◌, ◌++◌, none, some,
  codes, if◌then◌else◌, Expected, ok, unexpected, map,
}
use pulse_mesh.Base.Double.{Whole, whole_double}
use pulse_mesh.Text.Stream.{failed, read_word, read_u64, lines}
use pulse_mesh.Text.Stream.Reads.{blanks}
use pulse_mesh.Text.Digits.{to_string}
use pulse_mesh.Wire.{Metric}
use pulse_mesh.MetricCollector.{MetricCollectionError}
use pulse_mesh.ProcMetricCollector.Source.{SourceSnapshot}
use pulse_mesh.ProcMetricCollector.Cpu.{CpuCounters, parse_cpu_counters, read_fields, counters_of}
use pulse_mesh.ProcMetricCollector.Cpu.Rows.{
  Row, snapshot, row_contents, parse_cpu_counters-row, parse_cpu_counters-overflow,
}
use pulse_mesh.ProcMetricCollector.Memory.{
  parse_memory_metrics, read_lines, read_line, read_value, assign_field, memory_metrics,
}
use pulse_mesh.ProcMetricCollector.Memory.Files.{Line, total, available, other}
use pulse_mesh.ProcMetricCollector.Outcome.{Collected, cpu_usage, collect-Collected}
use pulse_mesh.ProcMetricCollector.Recovery.{parse_sources-recovers}
use pulse_mesh.ProcMetricCollector.{ProcMetricCollector, Files, read_source, collect, parse_sources}

abbrev stat_1 : Text
stat_1 = codes "cpu 100 0 100 800 0 0 0 0\n"

abbrev stat_2 : Text
stat_2 = codes "cpu 150 0 150 900 0 0 0 0\n"

abbrev meminfo : Text
meminfo = codes "MemTotal: 1000 kB\nBuffers: 3 kB\nMemAvailable: 400 kB\n"

abbrev files : Files
files source =
    if text_eq source (codes "stat")
    then some stat_1
    else if text_eq source (codes "meminfo")
    then some meminfo
    else none

abbrev collector : ProcMetricCollector
collector = record {
  stat_source = codes "stat";
  meminfo_source = codes "meminfo";
  previous_cpu_counters = none;
}

abbrev values : Expected MetricCollectionError (List (Metric Whole)) → List Whole
values (ok ms) = map (λ m. m.value) ms
values (unexpected e) = []

abbrev numbers : Expected MetricCollectionError CpuCounters → List ℕ
numbers (ok c) = c.total ∷ c.idle ∷ []
numbers (unexpected e) = []

abbrev snapshot_of : Text → SourceSnapshot
snapshot_of t = record { contents = t; source = codes "s" }

cpu_rows :
    (numbers (parse_cpu_counters (snapshot_of stat_1)) ≡ 1000 ∷ 800 ∷ [])
    × (numbers (parse_cpu_counters (snapshot_of (codes "cpu  1 2 3 4 5\ncpu0 9"))) ≡ 15 ∷ 9 ∷ [])
    × (numbers (parse_cpu_counters (snapshot_of (codes "cpu 1 2 3"))) ≡ [])
    × (numbers (parse_cpu_counters (snapshot_of (codes "cpu0 1 2 3 4"))) ≡ [])
    × (numbers (parse_cpu_counters (snapshot_of (codes "cpu 1 0 1 0 99999999999999999999")))
        ≡ 2 ∷ 18446744073709551615 ∷ [])
    × (numbers (parse_cpu_counters (snapshot_of (codes "cpu 1 0 1 1 99999999999999999999"))) ≡ [])
unfolding parse_cpu_counters read_word read_u64 read_fields counters_of text_eq
cpu_rows = (refl, refl, refl, refl, refl, refl)

-- The memory metrics alone, and then the CPU usage in front of them.
first_call :
    values (collect read_source (pos 1_000_000_000) collector files).0
    ≡ some 614400 ∷ some 409600 ∷ some 60 ∷ []
unfolding collect read_source parse_cpu_counters read_word read_u64 read_fields counters_of text_eq
    parse_memory_metrics lines read_lines read_line read_value assign_field
first_call = refl

second_call :
    values
      (parse_sources
        (pos 1)
        stat_2
        meminfo
        (parse_sources {F = Whole} (pos 0) stat_1 meminfo collector).1).0
    ≡ some 50 ∷ some 614400 ∷ some 409600 ∷ some 60 ∷ []
unfolding parse_sources parse_cpu_counters read_word read_u64 read_fields counters_of text_eq
    parse_memory_metrics lines read_lines read_line read_value assign_field
second_call = refl

abbrev row : Row
row = record {
  user = (1, 100);
  nice = (0, 0);
  system = (0, 100);
  idle = (0, 800);
  more = (0, 5) ∷ [];
}

rest_ends : read_u64 (codes "\ncpu0 1") ≡ failed 0
unfolding read_u64
rest_ends = refl

parse_cpu_counters-row_example :
    parse_cpu_counters (snapshot (codes "stat") (row_contents row (codes "\ncpu0 1")))
    ≡ ok (record { total = 1005; idle = 805 })
parse_cpu_counters-row_example =
    parse_cpu_counters-row (codes "stat") row (codes "\ncpu0 1") (ground arith) refl rest_ends

parse_cpu_counters-overflow_example :
    (c : CpuCounters) × (parse_cpu_counters (
        snapshot (codes "stat") (
          row_contents
            (record { user = (0, 1); nice = (0, 0); system = (0, 1); idle = (0, 0); more = [] })
            (blanks 1 ++ (to_string (2 ^ 64) ++ []))))
      ≡ ok c)
    × (c.total ≡ 1 + (0 + 1))
    × (c.idle ≡ 2 ^ 64 - 1)
    × (c.total < c.idle)
parse_cpu_counters-overflow_example =
    parse_cpu_counters-overflow (codes "stat") 1 0 1 0 (2 ^ 64) [] (ground arith) (ground arith)
      refl

abbrev file : List Line
file = total 3 1000 ∷ other (codes "Buffers: 3 kB") ∷ available 0 400 ∷ []

collect-Collected_example :
    Collected read_source
      (pos 7)
      collector
      files
      (collect {F = Whole} read_source (pos 7) collector files)
collect-Collected_example = collect-Collected read_source (pos 7) collector files

abbrev counters : ℕ → ℕ → CpuCounters
counters t i = record { total = t; idle = i }

abbrev stat_of : Text → SourceSnapshot
stat_of t = record { contents = t; source = codes "stat" }

cpu_1 : parse_cpu_counters (stat_of stat_1) ≡ ok (counters 1000 800)
unfolding parse_cpu_counters read_word read_u64 read_fields counters_of text_eq
cpu_1 = refl

cpu_2 : parse_cpu_counters (stat_of stat_2) ≡ ok (counters 1200 900)
unfolding parse_cpu_counters read_word read_u64 read_fields counters_of text_eq
cpu_2 = refl

abbrev memory_at : ℤ → List (Metric Whole)
memory_at t = memory_metrics 1024000 409600 t

memory_read :
    (t : ℤ)
    → parse_memory_metrics (record { contents = meminfo; source = codes "meminfo" }) t
      ≡ ok (memory_at t)
unfolding parse_memory_metrics lines read_lines read_line read_value assign_field read_word read_u64
    text_eq
memory_read t = refl

parse_sources-recovers_example :
    (parse_sources
      (pos 1)
      stat_2
      meminfo
      (parse_sources {F = Whole} (pos 0) stat_1 meminfo collector).1).0
    ≡ ok (cpu_usage (pos 1) (counters 1000 800) (counters 1200 900) ∷ memory_at (pos 1))
parse_sources-recovers_example =
    parse_sources-recovers (pos 0) stat_1 meminfo (counters 1000 800) (memory_at (pos 0)) (pos 1)
      stat_2 meminfo (counters 1200 900) (memory_at (pos 1)) collector cpu_1 (memory_read (pos 0))
      cpu_2 (memory_read (pos 1))
      (record { total_grows = ground arith; idle_grows = ground arith; idle_within = ground arith })
