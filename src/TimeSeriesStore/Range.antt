-- ===== src/TimeSeriesStore/Range.antt =====
-- `query_range` of in_memory_time_series_store.cpp: the plan, one page, and the aggregates.
pub mod Stats
pub mod Answer
pub mod Contents
pub mod Pagination
pub mod Cursor
pub mod Loop
pub mod Page
pub mod Stable
pub mod Tests
pub mod Interleaved
use mathlib.Core.List.{foldl}
use pulse_mesh.Base.{
  ℕ, ◌+◌, ◌%◌, ◌^◌, Bool, true, false, not, ◌&&◌, ◌||◌, ℤ, pos, ltb_ℤ, leb_ℤ, eqb_ℤ, Text, List, [],
  ◌∷◌, ◌++◌, Option, none, some, codes, ltb, ◌==◌, if◌then◌else◌, is_empty, length, Expected, ok,
  unexpected,
}
use pulse_mesh.Base.Maps.{find}
use pulse_mesh.Base.Double.{Double, max_of, min_of}
use pulse_mesh.Wire.{Metric, RangeRequest, RangeResponse}
use pulse_mesh.TimeSeriesStore.{
  TimeSeriesStoreError, make_error, invalid_argument, default_page_size, maximum_page_size,
  StoredMetric, Store,
}
use pulse_mesh.TimeSeriesStore.Filters.{of_range, matches_filters, validate_query_filters}
use pulse_mesh.TimeSeriesStore.PageToken.{RangePageCursor, decode_page_token, encode_page_token}

pub record RangeQueryPlan : Type 0 where
  pub cursor : Option RangePageCursor
  pub page_size : ℕ

abbrev refuse {ℓ} : {A : Type ℓ} → Text → Expected TimeSeriesStoreError A
refuse context = unexpected (make_error invalid_argument (codes "query_range") context false)

abbrev normal_page_size : ℕ → ℕ
normal_page_size n = if n == 0 then default_page_size else n

abbrev plan_with :
    RangeRequest → Option RangePageCursor → Expected TimeSeriesStoreError RangeQueryPlan
plan_with r c = ok (record { cursor = c; page_size = normal_page_size r.page_size })

abbrev plan_from_token :
    RangeRequest → Option RangePageCursor → Expected TimeSeriesStoreError RangeQueryPlan
plan_from_token r none = refuse (codes "page_token")
plan_from_token r (some c) = plan_with r (some c)

unfoldable pub make_range_query_plan : RangeRequest → Expected TimeSeriesStoreError RangeQueryPlan
unfolding make_error
make_range_query_plan r = elim (validate_query_filters (of_range r) (codes "query_range")) [
  | some e ↦ unexpected e
  | none ↦
      if ltb_ℤ r.to_ms r.from_ms
      then refuse (codes "time_range")
      else if ltb maximum_page_size r.page_size
      then refuse (codes "page_size")
      else if is_empty r.page_token
      then plan_with r none
      else plan_from_token r (decode_page_token r.page_token)
]

abbrev pub is_after_cursor : ℤ → ℕ → RangePageCursor → Bool
is_after_cursor t id c = ltb_ℤ c.timestamp_ms t || (eqb_ℤ t c.timestamp_ms && ltb c.event_id id)

abbrev pub after_option : ℤ → ℕ → Option RangePageCursor → Bool
after_option t id none = true
after_option t id (some c) = is_after_cursor t id c

abbrev pub token_for : Bool → Option RangePageCursor → Text
token_for true (some c) = encode_page_token c
token_for _ _ = []

abbrev pub snapshot_of : Option RangePageCursor → ℕ → ℕ
snapshot_of none current = current
snapshot_of (some c) current = c.snapshot_event_id

-- The variables of the page loop.
pub record Scan {ℓ} (F : Type ℓ) : Type ℓ where
  pub metrics : List (Metric F)
  pub values : List F
  pub last_returned : Option RangePageCursor
  pub has_more : Bool

module _ {ℓ} {F : Type ℓ} where
  abbrev pub timestamp : StoredMetric F → ℤ
  timestamp x = x.metric.timestamp_ms

  -- `lower_bound` on the timestamp: the elements from the first that is not earlier.
  unfoldable pub seek : ℤ → List (StoredMetric F) → List (StoredMetric F)
  seek from [] = []
  seek from (x ∷ xs) = if ltb_ℤ (timestamp x) from then seek from xs else x ∷ xs

  abbrev pub start_scan : Scan F
  start_scan = record { metrics = []; values = []; last_returned = none; has_more = false }

  -- One round of the loop, where `snapshot` bounds the event IDs.
  unfoldable pub visit : RangeRequest → RangeQueryPlan → ℕ → StoredMetric F → Scan F → Scan F
  visit r plan snapshot x s =
      let counted = record s { values = s.values ++ (x.metric.value ∷ []) } in
      if ltb snapshot x.event_id || not (matches_filters x.metric (of_range r))
      then s
      else if not (after_option (timestamp x) x.event_id plan.cursor)
      then counted
      else if (length s.metrics % 2 ^ 32) == plan.page_size
      then record counted { has_more = true }
      else record counted {
        metrics = s.metrics ++ (x.metric ∷ []);
        last_returned = some (record {
          snapshot_event_id = snapshot;
          timestamp_ms = timestamp x;
          event_id = x.event_id;
        });
      }

  unfoldable pub scan : RangeRequest → RangeQueryPlan → ℕ → List (StoredMetric F) → Scan F → Scan F
  unfolding visit
  scan r plan snapshot [] s = s
  scan r plan snapshot (x ∷ xs) s =
      let rest = scan r plan snapshot xs (visit r plan snapshot x s) in
      if leb_ℤ (timestamp x) r.to_ms then rest else s

pub record AggregateStats {ℓ} (F : Type ℓ) : Type ℓ where
  pub avg : F
  pub max : F
  pub min : F

module _ {ℓ} {F : Type ℓ} ⦃d : Double F⦄ where
  abbrev pub neutral : AggregateStats F
  neutral = record { avg = d.nought; max = d.nought; min = d.nought }

  unfoldable pub compute_stats : List F → AggregateStats F
  compute_stats [] = neutral
  compute_stats (v ∷ vs) = record {
    avg = d.div (foldl d.add d.nought (v ∷ vs)) (d.of_ℕ (length (v ∷ vs)));
    max = foldl max_of v (v ∷ vs);
    min = foldl min_of v (v ∷ vs);
  }

  abbrev pub respond : Scan F → RangeResponse F
  respond s =
      let stats = compute_stats s.values in
      record {
        metrics = s.metrics;
        avg = stats.avg;
        max = stats.max;
        min = stats.min;
        next_page_token = token_for s.has_more s.last_returned;
      }

  unfoldable pub build_range_page :
      List (StoredMetric F) → RangeRequest → RangeQueryPlan → ℕ → RangeResponse F
  unfolding scan seek
  build_range_page buffer r plan snapshot =
      respond (scan r plan snapshot (seek r.from_ms buffer) start_scan)

  abbrev pub empty_response : RangeResponse F
  empty_response = record {
    metrics = [];
    avg = d.nought;
    max = d.nought;
    min = d.nought;
    next_page_token = [];
  }

  -- The answer for the buffer that `find` gives, if it gives one.
  unfoldable pub page_of :
      RangeRequest → RangeQueryPlan → ℕ → Option (List (StoredMetric F)) → RangeResponse F
  unfolding build_range_page
  page_of r plan snapshot none = empty_response
  page_of r plan snapshot (some buffer) = build_range_page buffer r plan snapshot

  unfoldable pub query_range_plan :
      RangeRequest → RangeQueryPlan → Store F → Expected TimeSeriesStoreError (RangeResponse F)
  unfolding make_error
  query_range_plan r plan s =
      let snapshot = snapshot_of plan.cursor s.current_event_id in
      if ltb s.current_event_id snapshot
      then refuse (codes "page_token")
      else ok (page_of r plan snapshot (find r.metric_name s.metric_buffers))

  unfoldable pub query_range :
      RangeRequest → Store F → Expected TimeSeriesStoreError (RangeResponse F)
  unfolding query_range_plan page_of
  query_range r s = elim (make_range_query_plan r) [
    | unexpected e ↦ unexpected e
    | ok plan ↦ query_range_plan r plan s
  ]
