-- ===== src/TimeSeriesStore.antt =====
-- cpp/aggregator: the store that the aggregator keeps committed metrics in, and its in-memory
-- implementation. A method is one step on the state, since each holds the store's lock for all that
-- it does with the members.
pub mod Tests
pub mod Filters
pub mod PageToken
pub mod Buffer
pub mod Commit
pub mod Range
pub mod Events
pub mod Log
pub mod Interface
pub mod InMemory
pub mod Subscriber
use pulse_mesh.Base.{ℕ, ◌-◌, ◌^◌, Bool, Text, List, [], codes, ◌==◌, if◌then◌else◌}
use pulse_mesh.Wire.{Metric}

pub data BatchCommitOutcome : Type 0 where
  committed duplicate : BatchCommitOutcome

pub data TimeSeriesStoreErrorCode : Type 0 where
  invalid_argument connection transaction constraint query configuration : TimeSeriesStoreErrorCode

pub record TimeSeriesStoreError : Type 0 where
  pub code : TimeSeriesStoreErrorCode
  pub operation : Text
  pub context : Text
  pub retryable : Bool

unfoldable pub make_error : TimeSeriesStoreErrorCode → Text → Text → Bool → TimeSeriesStoreError
make_error code operation context retryable = record {
  code = code;
  operation = operation;
  context = context;
  retryable = retryable;
}

abbrev pub default_page_size : ℕ
default_page_size = 1000

abbrev pub maximum_page_size : ℕ
maximum_page_size = 10_000

abbrev pub default_capacity_per_metric : ℕ
default_capacity_per_metric = 10_000

-- `std::numeric_limits<std::int64_t>::max()`.
abbrev pub max_int64 : ℕ
max_int64 = 2 ^ 63 - 1

-- An event ID is never negative: the first is 1, and `commit_batch` stops before the last.
pub record StoredMetric {ℓ} (F : Type ℓ) : Type ℓ where
  pub metric : Metric F
  pub event_id : ℕ

abbrev pub Buffers {ℓ} : Type ℓ → Type ℓ
Buffers F = List (Text × List (StoredMetric F))

pub record Store {ℓ} (F : Type ℓ) : Type ℓ where
  pub capacity_per_metric : ℕ
  pub metric_buffers : Buffers F
  pub committed_batch_ids : List Text
  pub current_event_id : ℕ

unfoldable pub new {ℓ} : {F : Type ℓ} → ℕ → Store F
new capacity = record {
  capacity_per_metric = if capacity == 0 then default_capacity_per_metric else capacity;
  metric_buffers = [];
  committed_batch_ids = [];
  current_event_id = 0;
}
