-- ===== src/TimeSeriesStore/Commit.antt =====
-- `commit_batch` of in_memory_time_series_store.cpp, with `validate_batch` and
-- `publish_staged_buffers`.
pub mod Cases
pub mod Once
pub mod Retries
pub mod Events
pub mod Samples
pub mod Invariant
pub mod InPlace
pub mod Snapshot
use pulse_mesh.Base.{
  ℕ, suc, ◌+◌, ◌-◌, Bool, false, not, ◌||◌, Text, List, [], ◌∷◌, Option, none, some, codes, ltb,
  if◌then◌else◌, text_eq, is_empty, length, Expected, ok, unexpected,
}
use pulse_mesh.Base.Maps.{find, put}
use pulse_mesh.Base.Double.{Double}
use pulse_mesh.Wire.{Metric, MetricBatch}
use pulse_mesh.TimeSeriesStore.{
  BatchCommitOutcome, committed, duplicate, TimeSeriesStoreError, make_error, invalid_argument,
  constraint, max_int64, StoredMetric, Buffers, Store,
}
use pulse_mesh.TimeSeriesStore.Buffer.{insert_bounded_metric}

-- `committed_batch_ids_.contains`.
unfoldable pub contains : List Text → Text → Bool
contains [] id = false
contains (j ∷ ids) id = text_eq j id || contains ids id

abbrev invalid : Text → Option TimeSeriesStoreError
invalid context = some (make_error invalid_argument (codes "commit_batch") context false)

module _ {ℓ} {F : Type ℓ} where
  -- A copied metric with the source identity that the batch gives it.
  abbrev pub claim : Text → Metric F → ℕ → StoredMetric F
  claim client m id = record { metric = record m { source_client_id = client }; event_id = id }

  abbrev pub buffer_or_empty : Option (List (StoredMetric F)) → List (StoredMetric F)
  buffer_or_empty none = []
  buffer_or_empty (some b) = b

  -- The buffer that the loop inserts into: the staged one, or else a copy of the published one.
  abbrev pub staged_or_current : Buffers F → Buffers F → Text → List (StoredMetric F)
  staged_or_current buffers staged name = elim (find name staged) [
    | some b ↦ b
    | none ↦ buffer_or_empty (find name buffers)
  ]

  abbrev pub stage_metric : ℕ → Text → Buffers F → Buffers F → Metric F → ℕ → Buffers F
  stage_metric capacity client buffers staged m id =
      put m.name
        (insert_bounded_metric (staged_or_current buffers staged m.name) (claim client m id)
          capacity)
        staged

  -- The loop over the batch; `id` is `next_event_id` before the increment.
  unfoldable pub stage : ℕ → Text → Buffers F → Buffers F → List (Metric F) → ℕ → Buffers F
  unfolding insert_bounded_metric
  stage capacity client buffers staged [] id = staged
  stage capacity client buffers staged (m ∷ ms) id =
      stage capacity client buffers (stage_metric capacity client buffers staged m (suc id)) ms
        (suc id)

  -- `publish_staged_buffers`: each staged buffer takes the place of the published one, or is new.
  unfoldable pub publish : Buffers F → Buffers F → Buffers F
  publish destination [] = destination
  publish destination ((name, b) ∷ staged) = publish (put name b destination) staged

  -- The part of `commit_batch` behind the guards.
  unfoldable pub commit_metrics : MetricBatch F → Store F → Store F
  unfolding stage publish
  commit_metrics b s =
      let staged =
        stage s.capacity_per_metric b.client_id s.metric_buffers [] b.metrics s.current_event_id in
      record s {
        metric_buffers = publish s.metric_buffers staged;
        committed_batch_ids = b.batch_id ∷ s.committed_batch_ids;
        current_event_id = s.current_event_id + length b.metrics;
      }

module _ {ℓ} {F : Type ℓ} ⦃d : Double F⦄ where
  abbrev pub is_valid_metric : Metric F → Bool
  is_valid_metric m = not (is_empty m.name || not (d.is_finite m.value))

  unfoldable pub validate_metrics : List (Metric F) → Option TimeSeriesStoreError
  unfolding make_error
  validate_metrics [] = none
  validate_metrics (m ∷ ms) =
      if is_valid_metric m then validate_metrics ms else invalid (codes "metric")

  -- `none` is a valid batch.
  unfoldable pub validate_batch : MetricBatch F → Option TimeSeriesStoreError
  unfolding validate_metrics make_error
  validate_batch b =
      if is_empty b.client_id
      then invalid (codes "client_id")
      else if is_empty b.batch_id
      then invalid (codes "batch_id")
      else if is_empty b.metrics
      then invalid (codes "metrics")
      else validate_metrics b.metrics

  unfoldable pub commit_batch :
      MetricBatch F → Store F → Expected TimeSeriesStoreError BatchCommitOutcome × Store F
  unfolding make_error contains
  commit_batch b s = elim (validate_batch b) [
    | some e ↦ (unexpected e, s)
    | none ↦
        if contains s.committed_batch_ids b.batch_id
        then (ok duplicate, s)
        else if ltb (max_int64 - s.current_event_id) (length b.metrics)
        then (
          unexpected
              (make_error constraint (codes "commit_batch") (codes "event_id_exhausted") false),
          s,
        )
        else (ok committed, commit_metrics b s)
  ]

  -- A sequence of commits, each retried or not: the state after all of them.
  unfoldable pub commit_all : List (MetricBatch F) → Store F → Store F
  commit_all [] s = s
  commit_all (b ∷ bs) s = commit_all bs (commit_batch b s).1
