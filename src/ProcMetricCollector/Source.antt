-- ===== src/ProcMetricCollector/Source.antt =====
-- What the parsers of proc_metric_collector.cpp share.
use pulse_mesh.Base.{Bool, ℤ, Text, []}
use pulse_mesh.Wire.{Metric}
use pulse_mesh.MetricCollector.{MetricCollectionErrorCode, MetricCollectionError}

abbrev pub make_metric {ℓ} : {F : Type ℓ} → Text → F → ℤ → Metric F
make_metric name value timestamp_ms = record {
  name = name;
  value = value;
  tags = [];
  timestamp_ms = timestamp_ms;
  source_client_id = [];
}

abbrev pub collection_error : MetricCollectionErrorCode → Text → Text → Bool → MetricCollectionError
collection_error code operation source retryable = record {
  code = code;
  operation = operation;
  source = source;
  retryable = retryable;
}

-- A source's contents beside the name that errors give it.
pub record SourceSnapshot : Type 0 where
  pub contents : Text
  pub source : Text
