-- ===== src/CollectorSmoke/Tests.antt =====
-- Runs of cpp/client/collector_smoke.cpp where the sources change with the time, and where they do not.
use pulse_mesh.Base.{
  ℕ, zero, suc, ◌*◌, ◌≡◌, refl, ℤ, pos, Text, text_eq, List, [], ◌∷◌, codes, map, ok, length,
  if◌then◌else◌,
}
use pulse_mesh.Base.Double.{Whole, whole_double}
use pulse_mesh.ProcMetricCollector
use pulse_mesh.BatchBuilder
use pulse_mesh.PendingBatchQueue
use pulse_mesh.PendingBatchQueue.{enqueue, has_id}
use pulse_mesh.BatchBuilder.{build, batch_id_at, hex16}
use pulse_mesh.Text.Digits.{to_string}
use pulse_mesh.Text.Stream.{read_word, read_u64, lines}
use pulse_mesh.ProcMetricCollector.Cpu.{parse_cpu_counters, read_fields, counters_of}
use pulse_mesh.ProcMetricCollector.Memory.{
  parse_memory_metrics, read_lines, read_line, read_value, assign_field,
}
use pulse_mesh.ProcMetricCollector.{SourceReader, default_stat_source, collect}
use pulse_mesh.CollectorSmoke.{Smoke, start, collect_and_enqueue, main}
use pulse_mesh.CollectorSmoke.Steps.{Stepped, collect_and_enqueue-Stepped}
use pulse_mesh.CollectorSmoke.Runs.{Ran, main-Ran, start-IsReady}

abbrev stat_at : ℕ → Text
stat_at zero = codes "cpu 100 0 100 800 0 0 0 0\n"
stat_at (suc n) = codes "cpu 150 0 150 900 0 0 0 0\n"

abbrev read : SourceReader ℕ
read source time =
    if text_eq source default_stat_source
    then (ok (stat_at time), time)
    else (ok (codes "MemTotal: 1000 kB\nMemAvailable: 400 kB\n"), time)

abbrev now : ℕ → ℤ × ℕ
now time = (pos (time * 1_000_000), time)

abbrev sizes : Smoke Whole ℕ → List ℕ
sizes s = map (λ e. length e.batch.metrics) s.queue.batches

later : let r = main {F = Whole} read now suc 1 7 0 in (r.0 ≡ 0) × (sizes r.1 ≡ 3 ∷ 4 ∷ [])
unfolding main collect parse_cpu_counters read_word read_u64 read_fields counters_of text_eq
    parse_memory_metrics lines read_lines read_line read_value assign_field build enqueue has_id
    batch_id_at hex16 to_string ProcMetricCollector.new ProcMetricCollector.default_collector
    BatchBuilder.new BatchBuilder.new_session BatchBuilder.make_session_nonce PendingBatchQueue.new
later = (refl, refl)

-- Without a pause no time has passed, and the second call fails.
at_once : let r = main {F = Whole} read now (λ t. t) 1 7 0 in (r.0 ≡ 1) × (sizes r.1 ≡ 3 ∷ [])
unfolding main collect parse_cpu_counters read_word read_u64 read_fields counters_of text_eq
    parse_memory_metrics lines read_lines read_line read_value assign_field build enqueue has_id
    batch_id_at hex16 to_string ProcMetricCollector.new ProcMetricCollector.default_collector
    BatchBuilder.new BatchBuilder.new_session BatchBuilder.make_session_nonce PendingBatchQueue.new
at_once = (refl, refl)

main-Ran_example : Ran read now suc 1 7 0 (main {F = Whole} read now suc 1 7 0)
main-Ran_example = main-Ran read now suc 1 7 0

collect_and_enqueue-Stepped_example :
    Stepped read now (start {F = Whole} 1 7 0) (collect_and_enqueue read now (start 1 7 0))
collect_and_enqueue-Stepped_example =
    collect_and_enqueue-Stepped read now (start 1 7 0) (start-IsReady 1 7 0)
