-- ===== src/TimeSeriesStore/Log.antt =====
-- What i_time_series_store.h promises of `commit_batch`, without buffers: a log of the samples that
-- were ever committed, and of their batches' IDs.
pub mod Refinement
pub mod Latest
pub mod Tests
use mathlib.Core.List.{Perm}
use pulse_mesh.Base.{
  ℕ, suc, ◌+◌, ◌<◌, ◌≤◌, ◌≡◌, Bool, true, false, Text, List, [], ◌∷◌, none, some, text_eq, length,
  keep, All, Expected, ok, unexpected,
}
use pulse_mesh.Base.Double.{Double}
use pulse_mesh.Wire.{Metric, MetricBatch}
use pulse_mesh.TimeSeriesStore.{
  BatchCommitOutcome, committed, duplicate, TimeSeriesStoreError, StoredMetric, Store, max_int64,
}
use pulse_mesh.TimeSeriesStore.Buffer.Newest.{newest}
use pulse_mesh.TimeSeriesStore.Buffer.Order.{Sorted}
use pulse_mesh.TimeSeriesStore.Commit.{contains, buffer_or_empty, validate_batch, commit_batch}
use pulse_mesh.TimeSeriesStore.Commit.Cases.{exhausted}
use pulse_mesh.Base.Maps.{find}

-- The samples and the batch IDs, the last of each first.
pub record Log {ℓ} (F : Type ℓ) : Type ℓ where
  pub samples : List (StoredMetric F)
  pub ids : List Text

module _ {ℓ} {F : Type ℓ} where
  abbrev pub empty : Log F
  empty = record { samples = []; ids = [] }

  -- Each sample carries the client's ID, and its place in the log is its event ID.
  abbrev pub written : Text → List (Metric F) → List (StoredMetric F) → List (StoredMetric F)
  written client [] samples = samples
  written client (m ∷ ms) samples = written client ms (
      (record { metric = record m { source_client_id = client }; event_id = suc (length samples) })
      ∷ samples)

  abbrev pub write : MetricBatch F → Log F → Log F
  write b l = record { samples = written b.client_id b.metrics l.samples; ids = b.batch_id ∷ l.ids }

  abbrev pub is_named : Text → StoredMetric F → Bool
  is_named name x = text_eq x.metric.name name

  -- The buffer of `name`: put the log's samples of that name in order, and take the last ones.
  pub record IsView (capacity : ℕ) (name : Text) (samples : List (StoredMetric F))
      (b : List (StoredMetric F)) : Type ℓ where
    pub whole : List (StoredMetric F)
    pub contents : Perm whole (keep (is_named name) samples)
    pub sorted : Sorted whole
    pub numbered : All (λ x. x.event_id ≤ length samples) whole
    pub kept : b ≡ newest capacity whole

  pub record Refines (s : Store F) (l : Log F) : Type ℓ where
    pub has_room : 0 < s.capacity_per_metric
    pub buffers :
        (name : Text)
        → IsView s.capacity_per_metric name l.samples (buffer_or_empty (find name s.metric_buffers))
    pub ids : s.committed_batch_ids ≡ l.ids
    pub events : s.current_event_id ≡ length l.samples
    pub fits : length l.samples ≤ max_int64

module _ {ℓ} {F : Type ℓ} ⦃d : Double F⦄ where
  -- One call, with its answer and the log after it.
  pub data Commits (b : MetricBatch F) (l : Log F)
      : Expected TimeSeriesStoreError BatchCommitOutcome → Log F → Type ℓ where
    refused : (e : TimeSeriesStoreError) → validate_batch b ≡ some e → Commits b l (unexpected e) l
    known :
        validate_batch b ≡ none → contains l.ids b.batch_id ≡ true → Commits b l (ok duplicate) l
    full :
        validate_batch b ≡ none
        → contains l.ids b.batch_id ≡ false
        → max_int64 < length l.samples + length b.metrics
        → Commits b l (unexpected exhausted) l
    written_down :
        validate_batch b ≡ none
        → contains l.ids b.batch_id ≡ false
        → length l.samples + length b.metrics ≤ max_int64
        → Commits b l (ok committed) (write b l)

  -- A sequence of calls.
  pub data Logs
      : Log F
        → List (MetricBatch F)
        → List (Expected TimeSeriesStoreError BatchCommitOutcome)
        → Log F
        → Type ℓ where
    done : {l : Log F} → Logs l [] [] l
    next :
        {b : MetricBatch F} {bs : List (MetricBatch F)}
        {r : Expected TimeSeriesStoreError BatchCommitOutcome}
        {rs : List (Expected TimeSeriesStoreError BatchCommitOutcome)} {l k n : Log F}
        → Commits b l r k
        → Logs k bs rs n
        → Logs l (b ∷ bs) (r ∷ rs) n

  -- The answers of the store.
  unfoldable pub answers :
      List (MetricBatch F) → Store F → List (Expected TimeSeriesStoreError BatchCommitOutcome)
  answers [] s = []
  answers (b ∷ bs) s = (commit_batch b s).0 ∷ answers bs (commit_batch b s).1
