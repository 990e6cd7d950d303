-- ===== src/TimeSeriesStore/Tests.antt =====
-- Runs of in_memory_time_series_store.cpp on small stores.
use pulse_mesh.Base.{
  ℕ, ◌+◌, ◌≡◌, inl, inr, refl, Text, pos, negsuc, List, [], ◌∷◌, Option, none, some, codes, length,
  ok, map, take, arith,
}
use pulse_mesh.Base.Maps.{find}
use pulse_mesh.Text.Digits.{to_string, to_string_ℤ}
use pulse_mesh.Base.Double.{Whole, whole_double}
use pulse_mesh.Wire.{Metric, MetricBatch, LatestRequest, LatestResponse, SubscribeRequest}
use pulse_mesh.TimeSeriesStore.{StoredMetric, Store, new, committed, duplicate}
use pulse_mesh.TimeSeriesStore.Filters.{of_latest, of_subscribe, validate_query_filters}
use pulse_mesh.TimeSeriesStore.PageToken.{
  RangePageCursor, encode_page_token, decode_page_token, take_token_field, parse_integer,
}
use pulse_mesh.TimeSeriesStore.PageToken.RoundTrip.{decode-encode}
use pulse_mesh.TimeSeriesStore.Buffer.{insert_bounded_metric}
use pulse_mesh.TimeSeriesStore.Buffer.Retention.{Inserted, insert_bounded_metric-Inserted}
use pulse_mesh.TimeSeriesStore.Commit.{
  validate_batch, commit_batch, commit_all, commit_metrics, buffer_or_empty,
}
use pulse_mesh.TimeSeriesStore.Commit.InPlace.{insert_metrics, commit_metrics_in_place}
use pulse_mesh.TimeSeriesStore.Commit.Once.{Outcome, commit_batch-Outcome, commit_batch_again}
use pulse_mesh.TimeSeriesStore.Commit.Invariant.{IsValid, commit_all-new-IsValid}
use pulse_mesh.TimeSeriesStore.Events.{query_latest, query_events_after, to_event}
use pulse_mesh.TimeSeriesStore.Events.Replay.{IsReplay, query_events_after-Replay}
use pulse_mesh.TimeSeriesStore.Events.Latest.{matching, IsLatest, query_latest-IsLatest}

abbrev load : ℕ → ℕ → Metric Whole
load t v = record {
  name = codes "load";
  value = some v;
  tags = [];
  timestamp_ms = pos t;
  source_client_id = [];
}

abbrev batch : Text → List (Metric Whole) → MetricBatch Whole
batch id ms = record { client_id = codes "agent"; metrics = ms; batch_id = id }

abbrev batch_a : MetricBatch Whole
batch_a = batch (codes "a") (load 20 2 ∷ load 10 1 ∷ [])

abbrev batch_b : MetricBatch Whole
batch_b = batch (codes "b") (load 30 3 ∷ [])

abbrev batches : List (MetricBatch Whole)
batches = batch_a ∷ batch_b ∷ batch_a ∷ []

abbrev store : Store Whole
store = commit_all batches (new 3)

abbrev stored : ℕ → ℕ → StoredMetric Whole
stored t id = record { metric = load t id; event_id = id }

abbrev buffer : List (StoredMetric Whole)
buffer = stored 10 2 ∷ stored 20 1 ∷ []

abbrev latest : LatestRequest
latest = record { metric_name = codes "load"; tags_filter = []; client_id = none }

abbrev cursor : RangePageCursor
cursor = record { snapshot_event_id = 12; timestamp_ms = negsuc 4; event_id = 7 }

tokens :
    (encode_page_token cursor ≡ codes "v1:12:-5:7")
    × (decode_page_token (codes "v1:12:-5:7") ≡ some cursor)
    × (decode_page_token (codes "v1:12:-5:13") ≡ none)
    × (decode_page_token (codes "v1:12:-5:7x") ≡ none)
    × (decode_page_token (codes "v2:12:-5:7") ≡ none)
unfolding encode_page_token decode_page_token take_token_field parse_integer to_string to_string_ℤ
tokens = (refl, refl, refl, refl, refl)

commit_all-new-IsValid_example : IsValid (commit_all batches (new 3))
commit_all-new-IsValid_example = commit_all-new-IsValid 3 batches

commit_batch-Outcome_example : Outcome batch_a (new 3) (commit_batch batch_a (new 3))
commit_batch-Outcome_example = commit_batch-Outcome batch_a (new 3)

first_commit : (commit_batch batch_a (new 3)).0 ≡ ok committed
unfolding commit_batch new validate_batch
first_commit = refl

commit_batch_again_example :
    let t = commit_all (batch_b ∷ []) (commit_batch batch_a (new 3)).1 in
    commit_batch batch_a t ≡ (ok duplicate, t)
commit_batch_again_example = commit_batch_again batch_a (new 3) (batch_b ∷ []) first_commit

insert_bounded_metric-Inserted_example :
    Inserted buffer (stored 15 3) 2 (insert_bounded_metric buffer (stored 15 3) 2)
insert_bounded_metric-Inserted_example =
    insert_bounded_metric-Inserted buffer (stored 15 3) 2 ((refl, tt), (tt, tt))
      (inr refl, (inl refl, tt)) (ground arith)

decode-encode_example : decode_page_token (encode_page_token cursor) ≡ some cursor
decode-encode_example = decode-encode cursor (record {
  positive = ground arith;
  covered = ground arith;
  snapshot_fits = ground arith;
  timestamp_fits = ground arith;
})

valid : validate_query_filters (of_latest latest) (codes "query_latest") ≡ none
unfolding validate_query_filters
valid = refl

query_latest-IsLatest_example :
    (a : Option (LatestResponse Whole)) × (query_latest latest store ≡ ok a)
    × IsLatest
        (matching
          (of_latest latest)
          (buffer_or_empty (find latest.metric_name store.metric_buffers)))
        a
query_latest-IsLatest_example =
    query_latest-IsLatest latest store valid (commit_all-new-IsValid 3 batches)

commit_metrics_in_place_example : commit_metrics batch_a (new 3) ≡ record (new {F = Whole} 3) {
  metric_buffers =
      insert_metrics
        (new {F = Whole} 3).capacity_per_metric
        batch_a.client_id
        (new {F = Whole} 3).metric_buffers
        batch_a.metrics
        (new {F = Whole} 3).current_event_id;
  committed_batch_ids = batch_a.batch_id ∷ (new {F = Whole} 3).committed_batch_ids;
  current_event_id = (new {F = Whole} 3).current_event_id + length batch_a.metrics;
}
commit_metrics_in_place_example = commit_metrics_in_place batch_a (new 3)

abbrev subscription : SubscribeRequest
subscription = record {
  metric_name = codes "load";
  tags_filter = [];
  client_id = none;
  after_event_id = pos 1;
}

valid_subscription :
    validate_query_filters (of_subscribe subscription) (codes "query_events_after") ≡ none
unfolding validate_query_filters
valid_subscription = refl

query_events_after-Replay_example :
    (xs : List (StoredMetric Whole)) × (query_events_after subscription 5 store
      ≡ ok (map to_event (take 5 xs)))
    × IsReplay subscription store xs
query_events_after-Replay_example =
    query_events_after-Replay subscription 5 store valid_subscription refl (ground arith)
      (ground arith) (commit_all-new-IsValid 3 batches)
