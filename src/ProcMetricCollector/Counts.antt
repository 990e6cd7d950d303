-- ===== src/ProcMetricCollector/Counts.antt =====
-- How many metrics `collect` of proc_metric_collector.cpp gives.
use pulse_mesh.Base.{
  ℕ, ◌≡◌, refl, subst, inl, inr, Text, ◌||◌, ◌/◌, ◌==◌, ltb, ℤ, List, Option, none, some, arith,
  length, Expected, ok, unexpected, Bool-cases, Option-cases,
}
use pulse_mesh.Base.Double.{Double}
use pulse_mesh.Text.Stream.{max_u64, lines}
use pulse_mesh.Wire.{Metric}
use pulse_mesh.MetricCollector.{MetricCollectionError}
use pulse_mesh.ProcMetricCollector.Source.{SourceSnapshot}
use pulse_mesh.ProcMetricCollector.Cpu.{CpuCounters}
use pulse_mesh.ProcMetricCollector.Memory.{
  bytes_per_kilobyte, read_lines, memory_of, parse_memory_metrics,
}
use pulse_mesh.ProcMetricCollector.{ProcMetricCollector, SourceReader, collect}
use pulse_mesh.ProcMetricCollector.Outcome.{
  Advanced, baseline, usage, reset, Collected, no_stat, no_meminfo, bad_stat, bad_meminfo, parsed,
  collect-Collected,
}

-- Three metrics of the memory, and one of the CPU where there is a snapshot before.
abbrev pub metric_count : Option CpuCounters → ℕ
metric_count none = 3
metric_count (some previous) = 4

module _ {ℓ} {F : Type ℓ} ⦃d : Double F⦄ where
  -- The metrics of a result, if it has any, are `n`.
  abbrev pub HasCount : ℕ → Expected MetricCollectionError (List (Metric F)) → Type 0
  HasCount n (unexpected e) = Unit
  HasCount n (ok ms) = length ms ≡ n

module _ {ℓ} (F : Type ℓ) ⦃d : Double F⦄ where
  memory_of-HasCount :
      (s : SourceSnapshot) (t : ℤ) (total available : Option ℕ)
      → HasCount 3 (memory_of {F = F} s t (record { total_kb = total; available_kb = available }))
  unfolding memory_of
  memory_of-HasCount s t none available = tt
  memory_of-HasCount s t (some total) none = tt
  memory_of-HasCount s t (some total) (some available) =
      elim (Bool-cases
        (total == 0 || ltb total available || ltb (max_u64 / bytes_per_kilobyte) total)) [
          | inl bad ↦ rw bad tt
          | inr good ↦ rw good refl
        ]

  parse_memory_metrics-HasCount :
      (s : SourceSnapshot) (t : ℤ) → HasCount 3 (parse_memory_metrics {F = F} s t)
  unfolding parse_memory_metrics
  parse_memory_metrics-HasCount s t =
      elim (Option-cases
        (read_lines (lines s.contents) (record { total_kb = none; available_kb = none }))) [
          | inl e ↦ rw (e, parse_memory_metrics) tt
          | inr (m, e) ↦
              rw (e, parse_memory_metrics) (memory_of-HasCount s t m.total_kb m.available_kb)
        ]

module _ {ℓ} {F : Type ℓ} ⦃d : Double F⦄ where
  Advanced-HasCount :
      (t : ℤ) (source : Text) (ms : List (Metric F)) (o : Option CpuCounters)
      (current : CpuCounters) (r : Expected MetricCollectionError (List (Metric F)))
      → Advanced t source ms o current r
      → length ms ≡ 3
      → HasCount (metric_count o) r
  Advanced-HasCount t source ms none current r baseline h = h
  Advanced-HasCount t source ms (some p) current r (usage l) h = omega (arith, h)
  Advanced-HasCount t source ms (some p) current r (reset l) h = tt

module _ {ℓ ω} {F : Type ℓ} ⦃d : Double F⦄ {W : Type ω} (read : SourceReader W) where
  -- A result with metrics has as many as the snapshot before says, and leaves a snapshot.
  abbrev pub Counted :
      ProcMetricCollector
      → Expected MetricCollectionError (List (Metric F)) × ProcMetricCollector × W
      → Type 0
  Counted c (unexpected e, after, w) = Unit
  Counted c (ok ms, after, w) =
      (length ms ≡ metric_count c.previous_cpu_counters)
      × (metric_count after.previous_cpu_counters ≡ 4)

  Counted-result :
      (c after : ProcMetricCollector) (r : Expected MetricCollectionError (List (Metric F))) (w : W)
      → HasCount (metric_count c.previous_cpu_counters) r
      → metric_count after.previous_cpu_counters ≡ 4
      → Counted c (r, after, w)
  Counted-result c after (unexpected e) w h g = tt
  Counted-result c after (ok ms) w h g = (h, g)

  Collected-Counted :
      (sampled_at : ℤ) (c : ProcMetricCollector) (w : W)
      (r : Expected MetricCollectionError (List (Metric F)) × ProcMetricCollector × W)
      → Collected read sampled_at c w r
      → Counted c r
  Collected-Counted t c w r (no_stat _ _ _) = tt
  Collected-Counted t c w r (no_meminfo _ _ _ _ _ _) = tt
  Collected-Counted t c w r (bad_stat _ _ _ _ _ _ _ _) = tt
  Collected-Counted t c w r (bad_meminfo _ _ _ _ _ _ _ _ _ _) = tt
  Collected-Counted t c w r (parsed stat meminfo v u current ms result _ _ _ e a) =
      Counted-result c _ result u
        (Advanced-HasCount _ _ ms _ current result a
          (subst (HasCount 3) e (parse_memory_metrics-HasCount F _ _)))
        refl

module _ {ℓ ω} (F : Type ℓ) ⦃d : Double F⦄ {W : Type ω} (read : SourceReader W) where
  pub collect-Counted :
      (sampled_at : ℤ) (c : ProcMetricCollector) (w : W)
      → Counted read c (collect {F = F} read sampled_at c w)
  collect-Counted t c w = Collected-Counted read t c w _ (collect-Collected read t c w)
