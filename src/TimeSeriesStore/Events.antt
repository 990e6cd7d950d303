-- ===== src/TimeSeriesStore/Events.antt =====
-- `query_latest`, `current_event_id` and `query_events_after` of in_memory_time_series_store.cpp.
pub mod Cases
pub mod Latest
pub mod Replay
pub mod Matches
pub mod Resume
pub mod Growth
pub mod Answers
pub mod Subscription
pub mod Tests
use mathlib.Core.List.{reverse}
use pulse_mesh.Base.{
  ℕ, Bool, false, ◌&&◌, ◌||◌, pos, ltb_ℤ, Text, List, [], ◌∷◌, ◌++◌, map, Option, none, some, codes,
  ltb, leb, ◌==◌, if◌then◌else◌, take, keep, Expected, ok, unexpected,
}
use pulse_mesh.Base.Maps.{find}
use pulse_mesh.Base.Double.{Double}
use pulse_mesh.Wire.{LatestRequest, LatestResponse, SubscribeRequest, MetricEvent}
use pulse_mesh.TimeSeriesStore.{
  TimeSeriesStoreError, make_error, invalid_argument, maximum_page_size, StoredMetric, Buffers,
  Store,
}
use pulse_mesh.TimeSeriesStore.Filters.{
  Filters, of_latest, of_subscribe, matches_filters, validate_query_filters,
}

module _ {ℓ} {F : Type ℓ} where
  -- The loop of `query_latest`.
  unfoldable pub first_match : Filters → List (StoredMetric F) → Option (LatestResponse F)
  first_match f [] = none
  first_match f (x ∷ xs) =
      if matches_filters x.metric f then some (record { metric = x.metric }) else first_match f xs

  -- The answer for the buffer that `find` gives, if it gives one.
  unfoldable pub latest_of : Filters → Option (List (StoredMetric F)) → Option (LatestResponse F)
  unfolding first_match
  latest_of f none = none
  latest_of f (some buffer) = first_match f (reverse buffer)

  unfoldable pub query_latest :
      LatestRequest → Store F → Expected TimeSeriesStoreError (Option (LatestResponse F))
  query_latest r s = elim (validate_query_filters (of_latest r) (codes "query_latest")) [
    | some e ↦ unexpected e
    | none ↦ ok (latest_of (of_latest r) (find r.metric_name s.metric_buffers))
  ]

  unfoldable pub current_event_id : Store F → Expected TimeSeriesStoreError ℕ
  current_event_id s = ok s.current_event_id

  abbrev pub is_wanted : SubscribeRequest → StoredMetric F → Bool
  is_wanted r x =
      ltb_ℤ r.after_event_id (pos x.event_id) && matches_filters x.metric (of_subscribe r)

  -- The two loops that collect the matches.
  unfoldable pub collect : SubscribeRequest → Buffers F → List (StoredMetric F)
  collect r [] = []
  collect r ((name, buffer) ∷ rest) = keep (is_wanted r) buffer ++ collect r rest

  -- `std::ranges::sort` by the event ID.
  unfoldable pub insert_event : StoredMetric F → List (StoredMetric F) → List (StoredMetric F)
  insert_event x [] = x ∷ []
  insert_event x (y ∷ ys) = if leb x.event_id y.event_id then x ∷ y ∷ ys else y ∷ insert_event x ys

  unfoldable pub sort_events : List (StoredMetric F) → List (StoredMetric F)
  unfolding insert_event
  sort_events [] = []
  sort_events (x ∷ xs) = insert_event x (sort_events xs)

  -- The events that a request asks for, before the limit cuts them.
  unfoldable pub ordered_matches : SubscribeRequest → Store F → List (StoredMetric F)
  unfolding collect sort_events
  ordered_matches r s = sort_events (collect r s.metric_buffers)

abbrev refuse {ℓ} : {A : Type ℓ} → Text → Expected TimeSeriesStoreError A
refuse context = unexpected (make_error invalid_argument (codes "query_events_after") context false)

module _ {ℓ} {F : Type ℓ} ⦃d : Double F⦄ where
  -- The fields that the store does not set keep the message's defaults.
  abbrev pub to_event : StoredMetric F → MetricEvent F
  to_event x = record {
    metric = x.metric;
    rolling_avg_1m = d.nought;
    has_rolling_avg_1m = false;
    event_id = x.event_id;
  }

  unfoldable pub query_events_after :
      SubscribeRequest → ℕ → Store F → Expected TimeSeriesStoreError (List (MetricEvent F))
  unfolding make_error
  query_events_after r limit s =
      elim (validate_query_filters (of_subscribe r) (codes "query_events_after")) [
        | some e ↦ unexpected e
        | none ↦
            if ltb_ℤ r.after_event_id (pos 0)
            then refuse (codes "after_event_id")
            else if limit == 0 || ltb maximum_page_size limit
            then refuse (codes "fetch_limit")
            else ok (map to_event (take limit (ordered_matches r s)))
      ]
