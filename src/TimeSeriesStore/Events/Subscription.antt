-- ===== src/TimeSeriesStore/Events/Subscription.antt =====
-- Repeated calls of `query_events_after` of in_memory_time_series_store.cpp, while the buffer of the
-- requested metric is not full.
pub mod Cursor
pub mod Delivered
use pulse_mesh.Base.{
  ℕ, ◌<◌, ◌≤◌, ◌≡◌, ◌⊎◌, List, [], ◌∷◌, ◌++◌, map, none, codes, length, ltb_ℤ, pos, false,
}
use pulse_mesh.Base.Double.{Double}
use pulse_mesh.Wire.{MetricBatch, SubscribeRequest, MetricEvent}
use pulse_mesh.TimeSeriesStore.{StoredMetric, Store, maximum_page_size}
use pulse_mesh.TimeSeriesStore.Filters.{of_subscribe, validate_query_filters}
use pulse_mesh.TimeSeriesStore.Commit.{commit_all}
use pulse_mesh.TimeSeriesStore.Events.{ordered_matches, to_event, query_events_after}
use pulse_mesh.TimeSeriesStore.Events.Growth.{HasRoom}
use pulse_mesh.TimeSeriesStore.Events.Replay.{IsReplay}

-- A request that the store accepts, with its limit.
pub record IsSubscription (limit : ℕ) (r : SubscribeRequest) : Type 0 where
  pub filters : validate_query_filters (of_subscribe r) (codes "query_events_after") ≡ none
  pub cursor : ltb_ℤ r.after_event_id (pos 0) ≡ false
  pub positive : 0 < limit
  pub bounded : limit ≤ maximum_page_size

module _ {ℓ} {F : Type ℓ} ⦃d : Double F⦄ where
  -- The store of the last answer.
  abbrev pub last_store : List (List (MetricBatch F)) → Store F → Store F
  last_store [] s = s
  last_store (bs ∷ rounds) s = last_store rounds (commit_all bs s)

  -- The buffer of the requested metric is not full at any of the requests.
  abbrev pub KeepsRoom : SubscribeRequest → List (List (MetricBatch F)) → Store F → Type 0
  KeepsRoom r [] s = HasRoom r s
  KeepsRoom r (bs ∷ rounds) s = HasRoom r s × KeepsRoom r rounds (commit_all bs s)

  -- `events` are the first of the matching events of the store `s`, which are all its samples that
  -- the request asks for, in the strict order of their event IDs: they are all that the store `t`
  -- had, or else as many as `count`.
  pub record AreDelivered (r : SubscribeRequest) (t s : Store F) (count : ℕ)
      (events : List (MetricEvent F)) : Type ℓ where
    pub given : List (StoredMetric F)
    pub left : List (StoredMetric F)
    pub sent : events ≡ map to_event given
    pub in_order : ordered_matches r s ≡ given ++ left
    pub replayed : IsReplay r s (given ++ left)
    pub enough : (length (ordered_matches r t) ≤ length given) ⊎ (length given ≡ count)
