-- ===== src/TimeSeriesStore/Range/Answer.antt =====
-- What `query_range` of in_memory_time_series_store.cpp answers to a request that it accepts.

use pulse_mesh.Base.{
  ℕ, suc, ◌<◌, ◌≤◌, ◌^◌, ◌≡◌, refl, false, Text, ltb_ℤ, FitsInt64, List, [], Option, none, some,
  arith, codes, length, take, keep, All, All-keep, ok,
}
use pulse_mesh.Base.Maps.{find}
use pulse_mesh.Base.Double.{Double}
use pulse_mesh.Wire.{RangeRequest}
use pulse_mesh.TimeSeriesStore.{StoredMetric, Store, maximum_page_size}
use pulse_mesh.TimeSeriesStore.Filters.{of_range, validate_query_filters}
use pulse_mesh.TimeSeriesStore.PageToken.{RangePageCursor, encode_page_token}
use pulse_mesh.TimeSeriesStore.PageToken.RoundTrip.{IsCursor, decode-encode, is_empty-encode}
use pulse_mesh.TimeSeriesStore.Buffer.{last?}
use pulse_mesh.TimeSeriesStore.Buffer.Order.{Sorted}
use pulse_mesh.TimeSeriesStore.Commit.{buffer_or_empty}
use pulse_mesh.TimeSeriesStore.Commit.Samples.{IsSample, All-find}
use pulse_mesh.TimeSeriesStore.Commit.Invariant.{IsValid}
use pulse_mesh.TimeSeriesStore.Range.{
  RangeQueryPlan, timestamp, normal_page_size, snapshot_of, make_range_query_plan, query_range,
  query_range_plan, respond,
}
use pulse_mesh.TimeSeriesStore.Range.Page.{beyond, state_after, length-take}
use pulse_mesh.TimeSeriesStore.Range.Loop.{is_requested, page_of_lem}
use pulse_mesh.TimeSeriesStore.Range.Cursor.{All-take, All-last, last?-some}

abbrev pub with_token : RangeRequest → Text → RangeRequest
with_token r t = record r { page_token = t }

-- The requests that the store does not refuse.
pub record IsRequest (r : RangeRequest) : Type 0 where
  pub filters : validate_query_filters (of_range r) (codes "query_range") ≡ none
  pub interval : ltb_ℤ r.to_ms r.from_ms ≡ false
  pub size : r.page_size ≤ maximum_page_size

abbrev pub plan_at : RangeRequest → Option RangePageCursor → RangeQueryPlan
plan_at r c = record { cursor = c; page_size = normal_page_size r.page_size }

pub plan_first :
    (r : RangeRequest) → IsRequest r → make_range_query_plan (with_token r []) ≡ ok (plan_at r none)
unfolding make_range_query_plan
plan_first r v = rw (v.filters, make_range_query_plan, v.interval) (let h = v.size in ground arith)

pub plan_next :
    (r : RangeRequest) (c : RangePageCursor)
    → IsRequest r
    → IsCursor c
    → make_range_query_plan (with_token r (encode_page_token c)) ≡ ok (plan_at r (some c))
unfolding make_range_query_plan
plan_next r c v w =
    rw (v.filters, make_range_query_plan, v.interval, decode-encode c w, is_empty-encode c)
      (let h = v.size in ground arith)

pub page_size_fits :
    (r : RangeRequest)
    → IsRequest r
    → (0 < normal_page_size r.page_size) × (normal_page_size r.page_size < 2 ^ 32)
page_size_fits r v = let h = v.size in (ground arith, ground arith)

module _ {ℓ} {F : Type ℓ} ⦃d : Double F⦄ where
  -- The samples of the store that a request is about, in order, and those behind a cursor.
  abbrev pub requested : RangeRequest → Store F → List (StoredMetric F)
  requested r s =
      keep (is_requested r s.current_event_id)
        (buffer_or_empty (find r.metric_name s.metric_buffers))

  abbrev pub left : RangeRequest → Option RangePageCursor → Store F → List (StoredMetric F)
  left r c s = keep (beyond (plan_at r c)) (requested r s)

  -- A cursor into the store as it is now.
  abbrev pub IsCurrent : Store F → Option RangePageCursor → Type 0
  IsCurrent s none = Unit
  IsCurrent s (some c) = c.snapshot_event_id ≡ s.current_event_id

  snapshot_current :
      (s : Store F) (c : Option RangePageCursor)
      → IsCurrent s c
      → snapshot_of c s.current_event_id ≡ s.current_event_id
  snapshot_current s none h = refl
  snapshot_current s (some c) h = h

  pub buffer-Sorted :
      (r : RangeRequest) (s : Store F)
      → IsValid s
      → Sorted (buffer_or_empty (find r.metric_name s.metric_buffers))
  buffer-Sorted r s v =
      (All-find s.capacity_per_metric s.current_event_id r.metric_name s.metric_buffers
        v.buffers.buffers).sorted

  answer :
      (r : RangeRequest) (c : Option RangePageCursor) (t : Text) (s : Store F)
      → IsRequest r
      → IsValid s
      → IsCurrent s c
      → query_range_plan (with_token r t) (plan_at r c) s
        ≡ ok (respond (state_after (plan_at r c) s.current_event_id (requested r s)))
  unfolding query_range_plan
  answer r c t s q v h = rw (snapshot_current s c h) (
      rw
        (page_of_lem (find r.metric_name s.metric_buffers) (with_token r t) (plan_at r c)
          s.current_event_id (page_size_fits r q).1 (buffer-Sorted r s v))
        (ground arith))

  -- The token of a page that is not the last is that of the page's last sample, a cursor of the store.
  pub next-IsCursor :
      (r : RangeRequest) (c : Option RangePageCursor) (s : Store F) (n : ℕ)
      → IsValid s
      → All (λ x. FitsInt64 (timestamp x)) (requested r s)
      → suc n ≤ length (left r c s)
      → (y : StoredMetric F) × (last? (take (suc n) (left r c s)) ≡ some y)
        × IsCursor (record {
          snapshot_event_id = s.current_event_id;
          timestamp_ms = timestamp y;
          event_id = y.event_id;
        })
  next-IsCursor r c s n v f h =
      let (y, e) =
        last?-some (take (suc n) (left r c s))
          (omega (arith, length-take (suc n) (left r c s) h)) in
      let buffer = buffer_or_empty (find r.metric_name s.metric_buffers) in
      let samples =
        (All-find s.capacity_per_metric s.current_event_id r.metric_name s.metric_buffers
          v.buffers.buffers).samples in
      let sample : IsSample r.metric_name s.current_event_id y =
        All-last (IsSample r.metric_name s.current_event_id) (take (suc n) (left r c s)) y e (
          All-take _ (suc n) (left r c s) (
            All-keep _ (beyond (plan_at r c)) (requested r s)
              (All-keep _ (is_requested r s.current_event_id) buffer samples))) in
      let fits : FitsInt64 (timestamp y) =
        All-last (λ x. FitsInt64 (timestamp x)) (take (suc n) (left r c s)) y e
          (All-take _ (suc n) (left r c s) (All-keep _ (beyond (plan_at r c)) (requested r s) f)) in
      let bound = v.fits in
      (
        y,
        e,
        record {
          positive = sample.numbered;
          covered = sample.committed_before;
          snapshot_fits = omega arith;
          timestamp_fits = fits;
        },
      )

  -- On a store that commits made, a request with valid filters, interval and page size is answered by
  -- one page and the aggregates of the samples that it asks for, as lists describe them: all that
  -- match count for the aggregates, and the page has the first ones behind the cursor. The token is
  -- one that is decoded to no cursor, or to one with the store's current event as its snapshot.
  pub query_range_lem :
      (r : RangeRequest) (c : Option RangePageCursor) (t : Text) (s : Store F)
      → IsRequest r
      → IsValid s
      → IsCurrent s c
      → make_range_query_plan (with_token r t) ≡ ok (plan_at r c)
      → query_range (with_token r t) s
        ≡ ok (respond (state_after (plan_at r c) s.current_event_id (requested r s)))
  unfolding query_range
  query_range_lem r c t s q v k p = rw (p, query_range) (answer r c t s q v k)
