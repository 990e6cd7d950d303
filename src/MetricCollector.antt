-- ===== src/MetricCollector.antt =====
-- cpp/client/i_metric_collector.h: the errors of the collectors, and the time of a sample. A collector
-- is a function from the sampling time and its state to a result and the next state.
use pulse_mesh.Base.{ℕ, zero, suc, ◌/◌, Bool, ℤ, pos, negsuc, Text}

pub data MetricCollectionErrorCode : Type 0 where
  read_failed malformed_source invalid_counter_delta : MetricCollectionErrorCode

pub record MetricCollectionError : Type 0 where
  pub code : MetricCollectionErrorCode
  pub operation : Text
  pub source : Text
  pub retryable : Bool

abbrev negated : ℕ → ℤ
negated zero = pos 0
negated (suc n) = negsuc n

-- `duration_cast` to milliseconds, from a clock that counts nanoseconds: it rounds to zero.
unfoldable pub to_milliseconds : ℤ → ℤ
to_milliseconds (pos n) = pos (n / 1_000_000)
to_milliseconds (negsuc n) = negated (suc n / 1_000_000)
