-- ===== src/TimeSeriesStore/Events/Tests.antt =====
-- Repeated calls of `query_events_after` on small stores of in_memory_time_series_store.cpp.
use pulse_mesh.Base.{
  ℕ, ◌*◌, suc, ◌≡◌, refl, Text, pos, List, [], ◌∷◌, map, none, some, codes, length, Expected, ok,
  unexpected, arith, text_eq,
}
use pulse_mesh.Base.Maps.{find, put}
use pulse_mesh.Base.Double.{Whole, whole_double}
use pulse_mesh.Wire.{Metric, MetricBatch, SubscribeRequest, MetricEvent}
use pulse_mesh.TimeSeriesStore.{TimeSeriesStoreError, Store, new}
use pulse_mesh.TimeSeriesStore.Filters.{validate_query_filters, matches_filters, matches_tags}
use pulse_mesh.TimeSeriesStore.Commit.{validate_batch, commit_batch, commit_all, commit_metrics}
use pulse_mesh.TimeSeriesStore.Commit.Invariant.{commit_all-new-IsValid}
use pulse_mesh.TimeSeriesStore.Buffer.{insert_bounded_metric}
use pulse_mesh.TimeSeriesStore.Events.{ordered_matches, to_event, query_events_after}
use pulse_mesh.TimeSeriesStore.InMemory.{in_memory}
use pulse_mesh.TimeSeriesStore.Subscriber.{after, commit_each, poll_while}
use pulse_mesh.TimeSeriesStore.Events.Subscription.{
  IsSubscription, last_store, KeepsRoom, AreDelivered,
}
use pulse_mesh.TimeSeriesStore.Events.Subscription.Delivered.{poll_while-AreDelivered}

abbrev load : ℕ → Metric Whole
load t = record {
  name = codes "load";
  value = some t;
  tags = [];
  timestamp_ms = pos t;
  source_client_id = codes "agent";
}

abbrev batch : Text → List (Metric Whole) → MetricBatch Whole
batch id ms = record { client_id = codes "agent"; metrics = ms; batch_id = id }

abbrev batches : List (MetricBatch Whole)
batches = batch (codes "a") (load 20 ∷ load 10 ∷ []) ∷ []

abbrev store : Store Whole
store = commit_all batches (new 8)

-- An early sample comes late, between the first two requests, and none before the last one.
abbrev rounds : List (List (MetricBatch Whole))
rounds = (batch (codes "b") (load 5 ∷ []) ∷ batch (codes "a") (load 9 ∷ []) ∷ []) ∷ [] ∷ []

abbrev request : SubscribeRequest
request = record {
  metric_name = codes "load";
  tags_filter = [];
  client_id = none;
  after_event_id = pos 0;
}

abbrev event_ids : Expected TimeSeriesStoreError (List (MetricEvent Whole)) → List ℕ
event_ids (ok events) = map (λ e. e.event_id) events
event_ids (unexpected e) = []

-- With `after_event_id` 0 the events that were committed before the request are returned too.
in_order_of_events : event_ids (poll_while in_memory 2 request rounds store) ≡ 1 ∷ 2 ∷ 3 ∷ []
unfolding poll_while commit_each query_events_after ordered_matches commit_all commit_batch new find
    validate_batch commit_metrics insert_bounded_metric matches_filters matches_tags text_eq put
    validate_query_filters
in_order_of_events = refl

-- The request for what comes behind the first event.
abbrev resumed : SubscribeRequest
resumed = after 1 request

resumed_accepted : IsSubscription 1 resumed
unfolding validate_query_filters
resumed_accepted = record {
  filters = refl;
  cursor = refl;
  positive = ground arith;
  bounded = ground arith;
}

resumed_ids : event_ids (poll_while in_memory 1 resumed rounds store) ≡ 2 ∷ 3 ∷ []
unfolding poll_while commit_each query_events_after ordered_matches commit_all commit_batch new find
    validate_batch commit_metrics insert_bounded_metric matches_filters matches_tags text_eq put
    validate_query_filters
resumed_ids = refl

keeps_room : KeepsRoom resumed rounds store
unfolding commit_all commit_batch new find validate_batch commit_metrics insert_bounded_metric
    text_eq put
keeps_room = (ground arith, (ground arith, ground arith))

poll_while-AreDelivered_example :
    (events : List (MetricEvent Whole)) × (poll_while in_memory 1 resumed rounds store ≡ ok events)
    × AreDelivered resumed store (last_store rounds store) (1 * suc (length rounds)) events
poll_while-AreDelivered_example =
    poll_while-AreDelivered 1 resumed rounds store resumed_accepted
      (commit_all-new-IsValid 8 batches) keeps_room

-- A store that holds two samples of the metric: the first event is given up before it is asked for.
abbrev small : Store Whole
small = new 2

abbrev later_rounds : List (List (MetricBatch Whole))
later_rounds = batches ∷ (batch (codes "b") (load 15 ∷ load 30 ∷ []) ∷ []) ∷ [] ∷ []

abbrev event : ℕ → ℕ → MetricEvent Whole
event t id = to_event (record { metric = load t; event_id = id })

answered : poll_while in_memory 1 request later_rounds small ≡ ok (event 20 1 ∷ event 30 4 ∷ [])
unfolding poll_while commit_each query_events_after ordered_matches commit_batch new find
    validate_batch commit_metrics insert_bounded_metric matches_filters matches_tags text_eq put
    validate_query_filters
answered = refl
