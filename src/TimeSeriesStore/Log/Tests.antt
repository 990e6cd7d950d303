-- ===== src/TimeSeriesStore/Log/Tests.antt =====
-- A run of in_memory_time_series_store.cpp with a late sample and a full buffer, against the log.
use pulse_mesh.Base.{
  ◌≡◌, refl, codes, pos, Text, List, [], ◌∷◌, Option, some, ok, keep, map, text_eq,
}
use pulse_mesh.Base.Double.{Whole, whole_double}
use pulse_mesh.Base.Maps.{find, put}
use pulse_mesh.Wire.{Metric, MetricBatch, LatestResponse}
use pulse_mesh.TimeSeriesStore.{StoredMetric, new, committed, duplicate}
use pulse_mesh.TimeSeriesStore.Buffer.{insert_bounded_metric}
use pulse_mesh.TimeSeriesStore.Commit.{
  buffer_or_empty, commit_batch, commit_all, commit_metrics, validate_batch,
}
use pulse_mesh.TimeSeriesStore.Log.{Log, empty, is_named, Logs, Refines, answers}
use pulse_mesh.TimeSeriesStore.Log.Refinement.{commit_all-new-Logs}
use pulse_mesh.TimeSeriesStore.Log.Latest.{unfiltered, query_latest-Logs}
use pulse_mesh.TimeSeriesStore.Events.{query_latest}
use pulse_mesh.TimeSeriesStore.Events.Latest.{IsLatest}
use mathlib.Core.List.{Perm}

abbrev load : Whole → Metric Whole
load t = record {
  name = codes "load";
  value = t;
  tags = [];
  timestamp_ms = pos (elim t [ some n ↦ n | _ ↦ 0 ]);
  source_client_id = [];
}

abbrev batch : Text → List (Metric Whole) → MetricBatch Whole
batch id ms = record { client_id = codes "agent"; metrics = ms; batch_id = id }

-- The second batch comes late, and the third is the first one again.
abbrev batches : List (MetricBatch Whole)
batches =
    batch (codes "a") (load (some 30) ∷ load (some 10) ∷ [])
    ∷ batch (codes "b") (load (some 20) ∷ [])
    ∷ batch (codes "a") (load (some 30) ∷ [])
    ∷ []

answered : answers batches (new 2) ≡ ok committed ∷ ok committed ∷ ok duplicate ∷ []
unfolding answers commit_batch commit_metrics new validate_batch text_eq
answered = refl

kept :
    map
      (λ x. x.event_id)
      (buffer_or_empty (find (codes "load") (commit_all batches (new 2)).metric_buffers))
    ≡ 3 ∷ 1 ∷ []
unfolding commit_all commit_batch commit_metrics new validate_batch text_eq find put
    insert_bounded_metric
kept = refl

commit_all-new-Logs_example :
    (l : Log Whole) × Logs empty batches (answers batches (new 2)) l
    × Refines (commit_all batches (new 2)) l
commit_all-new-Logs_example = commit_all-new-Logs 2 batches

query_latest-Logs_example :
    (l : Log Whole) × Logs empty batches (answers batches (new 2)) l
    × ((whole : List (StoredMetric Whole)) × Perm whole (keep (is_named (codes "load")) l.samples)
        × ((a : Option (LatestResponse Whole)) × (query_latest
                (unfiltered (codes "load"))
                (commit_all batches (new 2))
              ≡ ok a)
            × IsLatest whole a))
query_latest-Logs_example = query_latest-Logs 2 batches (codes "load") refl
