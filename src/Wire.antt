-- ===== src/Wire.antt =====
-- proto/metrics.proto: the messages that the agent and the aggregator's store exchange. `F` is the
-- type of a `double` field. A `map` is the list of its entries, and a missing key has none.
use pulse_mesh.Base.{ℕ, ℤ, Bool, Text, List, Option}

abbrev pub Tags : Type 0
Tags = List (Text × Text)

pub record Metric {ℓ} (F : Type ℓ) : Type ℓ where
  pub name : Text
  pub value : F
  pub tags : Tags
  pub timestamp_ms : ℤ
  pub source_client_id : Text

pub record MetricBatch {ℓ} (F : Type ℓ) : Type ℓ where
  pub client_id : Text
  pub metrics : List (Metric F)
  pub batch_id : Text

pub record ClientConfig : Type 0 where
  pub sampling_interval_ms : ℤ
  pub metric_names : List Text

pub record BatchAck : Type 0 where
  pub batch_id : Text
  pub duplicate : Bool

-- A `oneof` that may be left unset.
pub data StreamResponse : Type 0 where
  config : ClientConfig → StreamResponse
  ack : BatchAck → StreamResponse
  payload_not_set : StreamResponse

pub record RangeRequest : Type 0 where
  pub metric_name : Text
  pub from_ms : ℤ
  pub to_ms : ℤ
  pub tags_filter : Tags
  pub client_id : Option Text
  pub page_size : ℕ
  pub page_token : Text

pub record RangeResponse {ℓ} (F : Type ℓ) : Type ℓ where
  pub metrics : List (Metric F)
  pub avg : F
  pub max : F
  pub min : F
  pub next_page_token : Text

pub record LatestRequest : Type 0 where
  pub metric_name : Text
  pub tags_filter : Tags
  pub client_id : Option Text

pub record LatestResponse {ℓ} (F : Type ℓ) : Type ℓ where
  pub metric : Metric F

pub record SubscribeRequest : Type 0 where
  pub metric_name : Text
  pub tags_filter : Tags
  pub client_id : Option Text
  pub after_event_id : ℤ

pub record MetricEvent {ℓ} (F : Type ℓ) : Type ℓ where
  pub metric : Metric F
  pub rolling_avg_1m : F
  pub has_rolling_avg_1m : Bool
  pub event_id : ℕ
