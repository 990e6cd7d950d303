-- ===== src/TimeSeriesStore/Interface.antt =====
-- cpp/aggregator/i_time_series_store.h: the interface that the aggregator's store stands behind, and
-- what its comments promise of an implementation.
use pulse_mesh.Base.{
  ℕ, ◌≤◌, ◌<◌, ◌≡◌, true, pos, ltb_ℤ, Text, List, Option, length, All, Expected, ok, unexpected, [],
  ◌∷◌,
}
use pulse_mesh.Wire.{
  MetricBatch, RangeRequest, RangeResponse, LatestRequest, LatestResponse, SubscribeRequest,
  MetricEvent,
}
use pulse_mesh.TimeSeriesStore.{BatchCommitOutcome, committed, duplicate, TimeSeriesStoreError}

-- The methods, over what the implementation keeps. Each is one step, as the interface is thread-safe.
pub record ITimeSeriesStore {ℓ} (F : Type ℓ) : Type (ℓ + 1) where
  pub State : Type ℓ
  pub commit_batch :
      MetricBatch F → State → Expected TimeSeriesStoreError BatchCommitOutcome × State
  pub query_range : RangeRequest → State → Expected TimeSeriesStoreError (RangeResponse F)
  pub query_latest :
      LatestRequest → State → Expected TimeSeriesStoreError (Option (LatestResponse F))
  pub current_event_id : State → Expected TimeSeriesStoreError ℕ
  pub query_events_after :
      SubscribeRequest → ℕ → State → Expected TimeSeriesStoreError (List (MetricEvent F))

module _ {ℓ} {F : Type ℓ} where
  -- Strictly in the order of event IDs.
  abbrev pub Increasing : List (MetricEvent F) → Type 0
  Increasing [] = Unit
  Increasing (e ∷ es) = All (λ f. e.event_id < f.event_id) es × Increasing es

  -- An answer of `query_events_after`.
  pub record AreEvents (r : SubscribeRequest) (fetch_limit : ℕ) (es : List (MetricEvent F))
      : Type ℓ where
    pub limited : length es ≤ fetch_limit
    pub after_cursor : All (λ e. ltb_ℤ r.after_event_id (pos e.event_id) ≡ true) es
    pub increasing : Increasing es

  -- What a client may rely on. `IsCommitted` is what the implementation remembers of a batch ID, and
  -- `IsValid` holds of the states that it gets into.
  pub record IsTimeSeriesStore (i : ITimeSeriesStore F) : Type (ℓ + 1) where
    pub IsValid : i.State → Type ℓ
    pub IsCommitted : Text → i.State → Type 0
    pub stays_valid : (b : MetricBatch F) (s : i.State) → IsValid s → IsValid (i.commit_batch b s).1
    pub stays_committed :
        (id : Text) (b : MetricBatch F) (s : i.State)
        → IsCommitted id s
        → IsCommitted id (i.commit_batch b s).1
    pub acknowledged :
        (b : MetricBatch F) (s : i.State) (o : BatchCommitOutcome)
        → (i.commit_batch b s).0 ≡ ok o
        → IsCommitted b.batch_id (i.commit_batch b s).1
    pub first_commit :
        (b : MetricBatch F) (s : i.State)
        → (i.commit_batch b s).0 ≡ ok committed
        → ¬ IsCommitted b.batch_id s
    pub retry :
        (b : MetricBatch F) (s : i.State)
        → (i.commit_batch b s).0 ≡ ok duplicate
        → IsCommitted b.batch_id s × ((i.commit_batch b s).1 ≡ s)
    pub refusal :
        (b : MetricBatch F) (s : i.State) (e : TimeSeriesStoreError)
        → (i.commit_batch b s).0 ≡ unexpected e
        → (i.commit_batch b s).1 ≡ s
    pub no_limit :
        (r : SubscribeRequest) (s : i.State)
        → (e : TimeSeriesStoreError) × (i.query_events_after r 0 s ≡ unexpected e)
    pub events :
        (r : SubscribeRequest) (fetch_limit : ℕ) (s : i.State) (es : List (MetricEvent F))
        → IsValid s
        → i.query_events_after r fetch_limit s ≡ ok es
        → AreEvents r fetch_limit es
    pub latest_event :
        (r : SubscribeRequest) (fetch_limit current : ℕ) (s : i.State) (es : List (MetricEvent F))
        → IsValid s
        → i.current_event_id s ≡ ok current
        → i.query_events_after r fetch_limit s ≡ ok es
        → All (λ e. e.event_id ≤ current) es
