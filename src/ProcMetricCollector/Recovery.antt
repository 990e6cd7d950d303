-- ===== src/ProcMetricCollector/Recovery.antt =====
-- `collect` of proc_metric_collector.cpp after a call that parsed its sources, whatever came before.
use pulse_mesh.Base.{
  ◌-◌, ◌≡◌, refl, ap, ◌∙◌, false, ◌||◌, ℤ, Text, List, ◌∷◌, some, arith, ltb, leb, ok,
}
use pulse_mesh.Base.Double.{Double}
use pulse_mesh.Wire.{Metric}
use pulse_mesh.ProcMetricCollector.Cpu.{CpuCounters, parse_cpu_counters}
use pulse_mesh.ProcMetricCollector.Memory.{parse_memory_metrics}
use pulse_mesh.ProcMetricCollector.{ProcMetricCollector, with_cpu_usage, advance, parse_sources}
use pulse_mesh.ProcMetricCollector.Outcome.{IsLater, cpu_usage, advance-state}

module _ {ℓ} {F : Type ℓ} ⦃d : Double F⦄ where
  parse_sources-parsed :
      (t : ℤ) (stat meminfo : Text) (c : ProcMetricCollector) (current : CpuCounters)
      (metrics : List (Metric F))
      → parse_cpu_counters (record { contents = stat; source = c.stat_source }) ≡ ok current
      → parse_memory_metrics (record { contents = meminfo; source = c.meminfo_source }) t
        ≡ ok metrics
      → parse_sources t stat meminfo c ≡ advance t current metrics c
  unfolding parse_sources
  parse_sources-parsed t stat meminfo c current metrics p q = rw (p, q, parse_sources) refl

  advance-later :
      (t : ℤ) (previous current : CpuCounters) (metrics : List (Metric F)) (c : ProcMetricCollector)
      → c.previous_cpu_counters ≡ some previous
      → IsLater previous current
      → (advance t current metrics c).0 ≡ ok (cpu_usage t previous current ∷ metrics)
  unfolding advance with_cpu_usage
  advance-later t p k metrics c e l =
      let f : (leb k.total p.total || ltb k.idle p.idle) ≡ false =
        let g = l.total_grows in let i = l.idle_grows in ground arith in
      let g : ltb (k.total - p.total) (k.idle - p.idle) ≡ false =
        let w = l.idle_within in ground arith in
      rw (e, advance, f, g) refl

  -- Whatever the collector kept before, an error for counters that went back included: after a call
  -- with well-formed sources, a call with a later snapshot gives the CPU usage between these two, in
  -- front of the memory metrics.
  pub parse_sources-recovers :
      (t : ℤ) (stat meminfo : Text) (previous : CpuCounters) (old : List (Metric F)) (u : ℤ)
      (next_stat next_meminfo : Text) (current : CpuCounters) (metrics : List (Metric F))
      (c : ProcMetricCollector)
      → parse_cpu_counters (record { contents = stat; source = c.stat_source }) ≡ ok previous
      → parse_memory_metrics (record { contents = meminfo; source = c.meminfo_source }) t ≡ ok old
      → parse_cpu_counters (record { contents = next_stat; source = c.stat_source }) ≡ ok current
      → parse_memory_metrics (record { contents = next_meminfo; source = c.meminfo_source }) u
        ≡ ok metrics
      → IsLater previous current
      → (parse_sources u next_stat next_meminfo (parse_sources {F = F} t stat meminfo c).1).0
        ≡ ok (cpu_usage u previous current ∷ metrics)
  parse_sources-recovers t stat meminfo p old u next_stat next_meminfo k metrics c h g i j l =
      rw (parse_sources-parsed t stat meminfo c p old h g, advance-state t p old c)
        (ap (λ r. r.0)
            (parse_sources-parsed u next_stat next_meminfo
              (record c { previous_cpu_counters = some p }) k metrics i j)
          ∙ advance-later u p k metrics (record c { previous_cpu_counters = some p }) refl l)
