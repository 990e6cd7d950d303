-- ===== src/TimeSeriesStore/Events/Cases.antt =====
-- The ways through `query_events_after` of in_memory_time_series_store.cpp.
use pulse_mesh.Base.{
  ℕ, ◌<◌, ◌≤◌, inl, inr, ◌||◌, pos, ltb_ℤ, List, map, arith, ltb, ◌==◌, take, codes, Expected, ok,
  unexpected, Bool-cases, Option-cases,
}
use pulse_mesh.Base.Double.{Double}
use pulse_mesh.Wire.{SubscribeRequest, MetricEvent}
use pulse_mesh.TimeSeriesStore.{TimeSeriesStoreError, Store, maximum_page_size}
use pulse_mesh.TimeSeriesStore.Filters.{of_subscribe, validate_query_filters}
use pulse_mesh.TimeSeriesStore.Events.{ordered_matches, to_event, query_events_after}

module _ {ℓ κ} {F : Type ℓ} ⦃d : Double F⦄
    (P : Expected TimeSeriesStoreError (List (MetricEvent F)) → Type κ) where
  -- It refuses, or has a limit in range and answers with the first matches.
  pub query_events_after_cases :
      (r : SubscribeRequest) (limit : ℕ) (s : Store F)
      → ((e : TimeSeriesStoreError) → P (unexpected e))
      → (0 < limit
          → limit ≤ maximum_page_size
          → P (ok (map to_event (take limit (ordered_matches r s)))))
      → P (query_events_after r limit s)
  unfolding query_events_after
  query_events_after_cases r limit s refuses answers =
      elim (Option-cases (validate_query_filters (of_subscribe r) (codes "query_events_after"))) [
        | inr (e, v) ↦ rw (v, query_events_after) (refuses e)
        | inl v ↦ elim (Bool-cases (ltb_ℤ r.after_event_id (pos 0))) [
          | inl c ↦ rw (v, query_events_after, c) (refuses _)
          | inr c ↦ elim (Bool-cases (limit == 0 || ltb maximum_page_size limit)) [
            | inl l ↦ rw (v, query_events_after, c, l) (refuses _)
            | inr l ↦ rw (v, query_events_after, c, l) (answers (ground arith) (ground arith))
          ]
        ]
      ]
