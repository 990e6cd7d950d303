-- ===== src/SyntheticMetricCollector.antt =====
-- cpp/client/impl/synthetic_metric_collector: a collector for tests and load generation. Its object
-- is used by one thread.
pub mod Samples
pub mod Tests
use pulse_mesh.Base.{
  ℕ, suc, ◌+◌, ◌/◌, ◌%◌, ◌^◌, Bool, false, not, ◌||◌, ℤ, pos, negsuc, Text, is_empty, List, [], ◌∷◌,
  codes, ◌-◌, zero, if◌then◌else◌, Expected, ok, unexpected,
}
use pulse_mesh.Base.Double.{Double}
use pulse_mesh.Wire.{Metric}
use pulse_mesh.MetricCollector.{MetricCollectionError, malformed_source, to_milliseconds}

pub record SyntheticMetricConfig {ℓ} (F : Type ℓ) : Type ℓ where
  pub metric_name : Text
  pub initial_value : F
  pub step : F

-- `sample_index_` is a `uint64_t`.
pub record SyntheticMetricCollector {ℓ} (F : Type ℓ) : Type ℓ where
  pub metric_name : Text
  pub initial_value : F
  pub step : F
  pub sample_index : ℕ

unfoldable pub new {ℓ} : {F : Type ℓ} → SyntheticMetricConfig F → SyntheticMetricCollector F
new config = record {
  metric_name = config.metric_name;
  initial_value = config.initial_value;
  step = config.step;
  sample_index = 0;
}

abbrev pub malformed_config : MetricCollectionError
malformed_config = record {
  code = malformed_source;
  operation = codes "generate_synthetic_metric";
  source = codes "synthetic";
  retryable = false;
}

module _ {ℓ} {F : Type ℓ} ⦃d : Double F⦄ where
  -- The members' default initializers.
  abbrev pub default_config : SyntheticMetricConfig F
  default_config = record {
    metric_name = codes "synthetic_value";
    initial_value = d.nought;
    step = d.of_ℕ 1;
  }

  abbrev pub value_at : SyntheticMetricCollector F → ℕ → F
  value_at c index = d.add c.initial_value (d.mul (d.of_ℕ index) c.step)

  abbrev pub is_unusable : SyntheticMetricCollector F → Bool
  is_unusable c =
      is_empty c.metric_name || not (d.is_finite c.initial_value) || not (d.is_finite c.step)

  unfoldable pub collect :
      ℤ
      → SyntheticMetricCollector F
      → Expected MetricCollectionError (List (Metric F)) × SyntheticMetricCollector F
  collect sampled_at c =
      if is_unusable c
      then (unexpected malformed_config, c)
      else if not (d.is_finite (value_at c c.sample_index))
      then (unexpected malformed_config, c)
      else (
        ok (
            (record {
              name = c.metric_name;
              value = value_at c c.sample_index;
              tags = [];
              timestamp_ms = to_milliseconds sampled_at;
              source_client_id = [];
            })
            ∷ []),
        record c { sample_index = (c.sample_index + 1) % 2 ^ 64 },
      )
