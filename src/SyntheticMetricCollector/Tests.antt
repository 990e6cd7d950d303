-- ===== src/SyntheticMetricCollector/Tests.antt =====
-- Runs of synthetic_metric_collector.cpp.
use pulse_mesh.Base.{
  ◌≡◌, refl, arith, ℤ, pos, negsuc, some, List, [], ◌∷◌, map, codes, Expected, ok, unexpected,
}
use pulse_mesh.Base.Double.{Whole, whole_double}
use pulse_mesh.MetricCollector.{MetricCollectionError, to_milliseconds}
use pulse_mesh.Wire.{Metric}
use pulse_mesh.SyntheticMetricCollector.{SyntheticMetricCollector, default_config, new, collect}
use pulse_mesh.SyntheticMetricCollector.Samples.{
  collect_all, samples_from, at_index, collect_all-samples_from,
}

abbrev collector : SyntheticMetricCollector Whole
collector = record {
  metric_name = codes "synthetic_value";
  initial_value = some 5;
  step = some 2;
  sample_index = 0;
}

abbrev times : List ℤ
times = pos 1_000_000 ∷ pos 2_500_000 ∷ []

rounds_to_zero :
    (to_milliseconds (pos 2_500_000) ≡ pos 2) × (to_milliseconds (negsuc 2_499_999) ≡ negsuc 1)
unfolding to_milliseconds
rounds_to_zero = (refl, refl)

abbrev values : Expected MetricCollectionError (List (Metric Whole)) → List Whole
values (ok ms) = map (λ m. m.value) ms
values (unexpected e) = []

-- The default collector counts from zero.
counts_up :
    (values (collect (pos 7) (new default_config)).0 ≡ some 0 ∷ [])
    × (values (collect (pos 8) (collect (pos 7) (new {F = Whole} default_config)).1).0
        ≡ some 1 ∷ [])
unfolding collect new
counts_up = (refl, refl)

collect_all-samples_from_example :
    collect_all times (at_index collector 3) ≡ samples_from collector 3 times
collect_all-samples_from_example =
    collect_all-samples_from collector 3 times refl refl refl (λ k low high. refl) (ground arith)
