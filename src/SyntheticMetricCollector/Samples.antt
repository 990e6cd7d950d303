-- ===== src/SyntheticMetricCollector/Samples.antt =====
-- The samples that synthetic_metric_collector.cpp generates.
use pulse_mesh.Base.{
  ℕ, suc, ◌+◌, ◌%◌, ◌^◌, ◌<◌, ◌≤◌, ◌≡◌, ◌⊎◌, refl, ap, inl, inr, true, false, ℤ, is_empty, List, [],
  ◌∷◌, arith, length, Expected, ok, unexpected, Bool-cases,
}
use pulse_mesh.Base.Double.{Double}
use pulse_mesh.Wire.{Metric}
use pulse_mesh.BatchBuilder.{any_malformed}
use pulse_mesh.MetricCollector.{MetricCollectionError, to_milliseconds}
use pulse_mesh.SyntheticMetricCollector.{
  SyntheticMetricCollector, malformed_config, value_at, is_unusable, collect,
}

module _ {ℓ} {F : Type ℓ} ⦃d : Double F⦄ where
  -- So many steps from the start, by one multiplication and one addition.
  abbrev pub steps_from_start : SyntheticMetricCollector F → ℕ → F
  steps_from_start c index = d.add c.initial_value (d.mul (d.of_ℕ index) c.step)

  -- The metric of the sample with an index.
  abbrev pub sample_at : SyntheticMetricCollector F → ℕ → ℤ → Metric F
  sample_at c index sampled_at = record {
    name = c.metric_name;
    value = steps_from_start c index;
    tags = [];
    timestamp_ms = to_milliseconds sampled_at;
    source_client_id = [];
  }

  abbrev pub at_index : SyntheticMetricCollector F → ℕ → SyntheticMetricCollector F
  at_index c index = record c { sample_index = index }

  -- One call for each time: the results, in order.
  pub collect_all :
      List ℤ → SyntheticMetricCollector F → List (Expected MetricCollectionError (List (Metric F)))
  collect_all [] c = []
  collect_all (t ∷ ts) c = (collect t c).0 ∷ collect_all ts (collect t c).1

  -- The samples from an index on, one for each time.
  pub samples_from :
      SyntheticMetricCollector F
      → ℕ
      → List ℤ
      → List (Expected MetricCollectionError (List (Metric F)))
  samples_from c index [] = []
  samples_from c index (t ∷ ts) = ok (sample_at c index t ∷ []) ∷ samples_from c (suc index) ts

  collect-at_index :
      (c : SyntheticMetricCollector F) (index : ℕ) (t : ℤ)
      → is_unusable c ≡ false
      → d.is_finite (value_at c index) ≡ true
      → index + 1 < 2 ^ 64
      → collect t (at_index c index) ≡ (ok (sample_at c index t ∷ []), at_index c (suc index))
  unfolding collect
  collect-at_index c index t u f h =
      let e : (index + 1) % 2 ^ 64 ≡ suc index = omega (arith, h) in rw (u, f, e) refl

  -- A collector with a name, a finite start and a finite step gives one sample for each call, if the
  -- value of each of these samples is finite and the index of `uint64_t` does not run out: the sample
  -- with index `k` has the collector's name, the time of its call in milliseconds, no tags, and the
  -- start plus `k` times the step as its value, computed from the start and not from the value before.
  pub collect_all-samples_from :
      (c : SyntheticMetricCollector F) (index : ℕ) (ts : List ℤ)
      → is_empty c.metric_name ≡ false
      → d.is_finite c.initial_value ≡ true
      → d.is_finite c.step ≡ true
      → ((k : ℕ) → index ≤ k → k < index + length ts → d.is_finite (steps_from_start c k) ≡ true)
      → index + length ts < 2 ^ 64
      → collect_all ts (at_index c index) ≡ samples_from c index ts
  unfolding collect_all samples_from
  collect_all-samples_from c index [] n a b f h = refl
  collect_all-samples_from c index (t ∷ ts) n a b f h =
      let usable : is_unusable c ≡ false = rw (n, a, b) refl in
      rw
        (collect-at_index c index t usable (f index (omega arith) (omega arith)) (omega (arith, h)))
        (ap (◌∷◌ (ok (sample_at c index t ∷ []))) (
          collect_all-samples_from c (suc index) ts n a b
            (λ k low high. f k (omega (arith, low)) (omega (arith, high))) (omega (arith, h))))

  -- What a caller of `collect` learns from each result.
  abbrev pub Outcome :
      ℤ
      → SyntheticMetricCollector F
      → Expected MetricCollectionError (List (Metric F)) × SyntheticMetricCollector F
      → Type ℓ
  Outcome t c (unexpected e, after) =
      (after ≡ c)
      × (e ≡ malformed_config)
      × ((is_unusable c ≡ true) ⊎ (d.is_finite (value_at c c.sample_index) ≡ false))
  Outcome t c (ok metrics, after) =
      (is_unusable c ≡ false)
      × (d.is_finite (value_at c c.sample_index) ≡ true)
      × (after ≡ record c { sample_index = (c.sample_index + 1) % 2 ^ 64 })
      × (metrics ≡ sample_at c c.sample_index t ∷ [])
      × (any_malformed metrics ≡ false)

  -- A call fails exactly for an empty name or a start, step or value that is not finite, and then the
  -- index stays. Otherwise it gives one sample, which a batch builder takes, and the index advances.
  pub collect-Outcome : (t : ℤ) (c : SyntheticMetricCollector F) → Outcome t c (collect t c)
  unfolding collect any_malformed
  collect-Outcome t c = elim (Bool-cases (is_unusable c)) [
    | inl bad ↦ rw bad (refl, refl, inl bad)
    | inr good ↦ elim (Bool-cases (d.is_finite (value_at c c.sample_index))) [
      | inr bad ↦ rw (good, bad) (refl, refl, inr bad)
      | inl fine ↦
          let named : is_empty c.metric_name ≡ false = ground arith in
          rw (good, fine) (good, fine, refl, refl, rw (named, fine) refl)
    ]
  ]
