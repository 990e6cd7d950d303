-- ===== src/TimeSeriesStore/Subscriber.antt =====
-- Repeated calls of `query_events_after` on a store behind i_time_series_store.h, each with the ID of the
-- last event that was returned, as the exclusive `after_event_id` is meant for, while `commit_batch`
-- is called. The service that will make these calls is not in the repository yet.
use pulse_mesh.Base.{
  ℕ, ◌≡◌, refl, true, ℤ, pos, negsuc, ltb_ℤ, List, [], ◌∷◌, ◌++◌, ltb, arith, Expected, ok,
  unexpected,
}
use pulse_mesh.Wire.{MetricBatch, SubscribeRequest, MetricEvent}
use pulse_mesh.TimeSeriesStore.{TimeSeriesStoreError}
use pulse_mesh.TimeSeriesStore.Interface.{ITimeSeriesStore}

-- The request for what comes after the event `i`.
abbrev pub after : ℕ → SubscribeRequest → SubscribeRequest
after i r = record r { after_event_id = pos i }

pub later_cursor :
    (z : ℤ) (i j : ℕ) → ltb_ℤ z (pos i) ≡ true → ltb i j ≡ true → ltb_ℤ z (pos j) ≡ true
later_cursor (pos n) i j h g = ground arith
later_cursor (negsuc n) i j h g = refl

module _ {ℓ} {F : Type ℓ} where
  -- The request for what comes after the events of an answer.
  abbrev pub resume : SubscribeRequest → List (MetricEvent F) → SubscribeRequest
  resume r [] = r
  resume r (e ∷ es) = resume (after e.event_id r) es

  abbrev pub then_more :
      List (MetricEvent F)
      → Expected TimeSeriesStoreError (List (MetricEvent F))
      → Expected TimeSeriesStoreError (List (MetricEvent F))
  then_more events (ok more) = ok (events ++ more)
  then_more events (unexpected e) = unexpected e

module _ {ℓ} {F : Type ℓ} (i : ITimeSeriesStore F) where
  unfoldable pub commit_each : List (MetricBatch F) → i.State → i.State
  commit_each [] s = s
  commit_each (b ∷ bs) s = commit_each bs (i.commit_batch b s).1

  -- All events of the answers: one request, and another after each list of batches.
  unfoldable pub poll_while :
      ℕ
      → SubscribeRequest
      → List (List (MetricBatch F))
      → i.State
      → Expected TimeSeriesStoreError (List (MetricEvent F))
  poll_while limit r [] s = i.query_events_after r limit s
  poll_while limit r (bs ∷ rounds) s = elim (i.query_events_after r limit s) [
    | unexpected e ↦ unexpected e
    | ok events ↦ then_more events (poll_while limit (resume r events) rounds (commit_each bs s))
  ]
