-- ===== src/ProcMetricCollector/Outcome.antt =====
-- What a caller of `collect` of proc_metric_collector.cpp is told, and which snapshot is kept.
use pulse_mesh.Base.{
  ◌-◌, ◌<◌, ◌≤◌, ◌≡◌, refl, inl, inr, ◌||◌, ℤ, Text, List, ◌∷◌, Option, none, some, codes, arith,
  ltb, leb, Expected, ok, unexpected, pair-eq, Bool-cases, Option-cases, Expected-cases,
  Expected-cases,
}
use pulse_mesh.Base.Double.{Double}
use pulse_mesh.Wire.{Metric}
use pulse_mesh.MetricCollector.{MetricCollectionError, to_milliseconds}
use pulse_mesh.ProcMetricCollector.Source.{make_metric}
use pulse_mesh.ProcMetricCollector.Cpu.{CpuCounters, parse_cpu_counters}
use pulse_mesh.ProcMetricCollector.Memory.{percent, parse_memory_metrics}
use pulse_mesh.ProcMetricCollector.{
  ProcMetricCollector, SourceReader, invalid_delta, with_cpu_usage, advance, parse_sources, collect,
}

-- The new snapshot is later than the old one: time has passed, no counter has gone back, and no more
-- idle time has passed than time.
pub record IsLater (previous current : CpuCounters) : Type 0 where
  pub total_grows : previous.total < current.total
  pub idle_grows : previous.idle ≤ current.idle
  pub idle_within : current.idle - previous.idle ≤ current.total - previous.total

module _ {ℓ} {F : Type ℓ} ⦃d : Double F⦄ where
  abbrev pub cpu_usage : ℤ → CpuCounters → CpuCounters → Metric F
  cpu_usage timestamp_ms previous current =
      let whole = current.total - previous.total in
      make_metric (codes "cpu_usage_percent")
        (percent (whole - (current.idle - previous.idle)) whole) timestamp_ms

  -- The results of a call on parsed sources, by the snapshot before.
  pub data Advanced (t : ℤ) (source : Text) (metrics : List (Metric F))
      : Option CpuCounters
        → CpuCounters
        → Expected MetricCollectionError (List (Metric F))
        → Type ℓ where
    baseline : {current : CpuCounters} → Advanced t source metrics none current (ok metrics)
    usage :
        {previous current : CpuCounters}
        → IsLater previous current
        → Advanced t source metrics
            (some previous)
            current
            (ok (cpu_usage t previous current ∷ metrics))
    reset :
        {previous current : CpuCounters}
        → (IsLater previous current → ⊥)
        → Advanced t source metrics (some previous) current (unexpected (invalid_delta source))

  with_cpu_usage-Advanced :
      (t : ℤ) (source : Text) (metrics : List (Metric F)) (previous current : CpuCounters)
      → Advanced t source metrics
          (some previous)
          current
          (with_cpu_usage source t previous current metrics)
  unfolding with_cpu_usage
  with_cpu_usage-Advanced t source metrics p c =
      elim (Bool-cases (leb c.total p.total || ltb c.idle p.idle)) [
        | inl back ↦
            rw back (reset (λ l. let g = l.total_grows in let i = l.idle_grows in ground arith))
        | inr on ↦ elim (Bool-cases (ltb (c.total - p.total) (c.idle - p.idle))) [
          | inl more ↦ rw (on, more) (reset (λ l. let w = l.idle_within in ground arith))
          | inr fine ↦
              rw (on, fine)
                (usage (record {
                  total_grows = ground arith;
                  idle_grows = ground arith;
                  idle_within = ground arith;
                }))
        ]
      ]

  advance-Advanced :
      (t : ℤ) (current : CpuCounters) (metrics : List (Metric F)) (c : ProcMetricCollector)
      (o : Option CpuCounters)
      → c.previous_cpu_counters ≡ o
      → Advanced t c.stat_source metrics o current (advance t current metrics c).0
  unfolding advance
  advance-Advanced t current metrics c none e = rw (e, advance) baseline
  advance-Advanced t current metrics c (some p) e =
      rw (e, advance) (with_cpu_usage-Advanced t c.stat_source metrics p current)

  pub advance-state :
      (t : ℤ) (current : CpuCounters) (metrics : List (Metric F)) (c : ProcMetricCollector)
      → (advance t current metrics c).1 ≡ record c { previous_cpu_counters = some current }
  unfolding advance
  advance-state t current metrics c = elim (Option-cases c.previous_cpu_counters) [
    | inl e ↦ rw (e, advance) refl
    | inr (p, e) ↦ rw (e, advance) refl
  ]

module _ {ℓ ω} {F : Type ℓ} ⦃d : Double F⦄ {W : Type ω} (read : SourceReader W) where
  -- The results of `collect`, with what the reader gave and the world that it left.
  pub data Collected (sampled_at : ℤ) (c : ProcMetricCollector) (w : W)
      : Expected MetricCollectionError (List (Metric F)) × ProcMetricCollector × W
        → Type (ℓ ⊔ ω) where
    no_stat :
        (e : MetricCollectionError) (v : W)
        → read c.stat_source w ≡ (unexpected e, v)
        → Collected sampled_at c w (unexpected e, c, v)
    no_meminfo :
        (e : MetricCollectionError) (stat : Text) (v u : W)
        → read c.stat_source w ≡ (ok stat, v)
        → read c.meminfo_source v ≡ (unexpected e, u)
        → Collected sampled_at c w (unexpected e, c, u)
    bad_stat :
        (e : MetricCollectionError) (stat meminfo : Text) (v u : W)
        → read c.stat_source w ≡ (ok stat, v)
        → read c.meminfo_source v ≡ (ok meminfo, u)
        → parse_cpu_counters (record { contents = stat; source = c.stat_source }) ≡ unexpected e
        → Collected sampled_at c w (unexpected e, c, u)
    bad_meminfo :
        (e : MetricCollectionError) (stat meminfo : Text) (v u : W) (current : CpuCounters)
        → read c.stat_source w ≡ (ok stat, v)
        → read c.meminfo_source v ≡ (ok meminfo, u)
        → parse_cpu_counters (record { contents = stat; source = c.stat_source }) ≡ ok current
        → parse_memory_metrics {F = F}
            (record { contents = meminfo; source = c.meminfo_source })
            (to_milliseconds sampled_at)
          ≡ unexpected e
        → Collected sampled_at c w (unexpected e, c, u)
    parsed :
        (stat meminfo : Text) (v u : W) (current : CpuCounters) (metrics : List (Metric F))
        (r : Expected MetricCollectionError (List (Metric F)))
        → read c.stat_source w ≡ (ok stat, v)
        → read c.meminfo_source v ≡ (ok meminfo, u)
        → parse_cpu_counters (record { contents = stat; source = c.stat_source }) ≡ ok current
        → parse_memory_metrics
            (record { contents = meminfo; source = c.meminfo_source })
            (to_milliseconds sampled_at)
          ≡ ok metrics
        → Advanced
            (to_milliseconds sampled_at)
            c.stat_source
            metrics
            c.previous_cpu_counters
            current
            r
        → Collected sampled_at c w (r, record c { previous_cpu_counters = some current }, u)

  after_parse :
      (sampled_at : ℤ) (c : ProcMetricCollector) (w v u : W) (stat meminfo : Text)
      → read c.stat_source w ≡ (ok stat, v)
      → read c.meminfo_source v ≡ (ok meminfo, u)
      → let r = parse_sources {F = F} (to_milliseconds sampled_at) stat meminfo c in
        Collected sampled_at c w (r.0, r.1, u)
  unfolding parse_sources
  after_parse sampled_at c w v u stat meminfo h g =
      elim (Expected-cases
        (parse_cpu_counters (record { contents = stat; source = c.stat_source }))) [
          | inl (e, p) ↦ rw (p, parse_sources) (bad_stat e stat meminfo v u h g p)
          | inr (current, p) ↦
              elim (Expected-cases (
                parse_memory_metrics {F = F}
                  (record { contents = meminfo; source = c.meminfo_source })
                  (to_milliseconds sampled_at))) [
                    | inl (e, q) ↦
                        rw (p, q, parse_sources) (bad_meminfo e stat meminfo v u current h g p q)
                    | inr (metrics, q) ↦
                        let a =
                          advance-Advanced (to_milliseconds sampled_at) current metrics c
                            c.previous_cpu_counters refl in
                        rw (p, q, parse_sources)
                          (rw (advance-state (to_milliseconds sampled_at) current metrics c)
                            (parsed stat meminfo v u current metrics _ h g p q a))
                  ]
        ]

  -- Every result of `collect`. An error of the reader or of a parser is passed on, and the last
  -- snapshot is kept; the memory source is not read after the other one failed. Once both sources are
  -- parsed, their snapshot replaces the one before, whether or not the call succeeds. The first
  -- snapshot gives the memory metrics alone. From then on the CPU usage stands in front of them if
  -- the new snapshot is later, and is the share that was not idle of the time between the two; if it
  -- is not later, the call fails.
  pub collect-Collected :
      (sampled_at : ℤ) (c : ProcMetricCollector) (w : W)
      → Collected sampled_at c w (collect read sampled_at c w)
  unfolding collect
  collect-Collected sampled_at c w = elim (Expected-cases (read c.stat_source w).0) [
    | inl (e, h) ↦ rw (h, collect) (no_stat e (read c.stat_source w).1 (pair-eq _ _ h))
    | inr (stat, h) ↦
        let v = (read c.stat_source w).1 in
        elim (Expected-cases (read c.meminfo_source v).0) [
          | inl (e, g) ↦
              rw (h, g, collect)
                (no_meminfo e stat v (read c.meminfo_source v).1 (pair-eq _ _ h) (pair-eq _ _ g))
          | inr (meminfo, g) ↦
              rw (h, g, collect)
                (after_parse sampled_at c w v (read c.meminfo_source v).1 stat meminfo
                  (pair-eq _ _ h) (pair-eq _ _ g))
        ]
  ]
