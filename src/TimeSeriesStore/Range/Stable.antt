-- ===== src/TimeSeriesStore/Range/Stable.antt =====
-- The pages of `query_range` of in_memory_time_series_store.cpp while `commit_batch` goes on: a page
-- token holds the event up to which the first page looked.

use pulse_mesh.Base.{
  ℕ, ◌<◌, ◌≡◌, refl, sym, ap, ◌∙◌, inl, inr, false, Text, List, [], ◌∷◌, some, arith, leb, ltb,
  length, keep, ok, Bool-cases,
}
use pulse_mesh.Base.Maps.{find}
use pulse_mesh.Base.Double.{Double}
use pulse_mesh.Wire.{MetricBatch, RangeRequest}
use pulse_mesh.TimeSeriesStore.{StoredMetric, Store}
use pulse_mesh.TimeSeriesStore.PageToken.{encode_page_token}
use pulse_mesh.TimeSeriesStore.PageToken.RoundTrip.{IsCursor}
use pulse_mesh.TimeSeriesStore.Commit.{commit_all}
use pulse_mesh.TimeSeriesStore.Commit.Invariant.{IsValid, commit_all-IsValid}
use pulse_mesh.TimeSeriesStore.Commit.Snapshot.{
  buffer_of, is_covered, IsLaterStore, IsLaterStore-itself, commit_all-IsLaterStore,
}
use pulse_mesh.TimeSeriesStore.Range.{query_range, query_range_plan, respond}
use pulse_mesh.TimeSeriesStore.Range.Page.{state_after}
use pulse_mesh.TimeSeriesStore.Range.Loop.{is_requested, page_of_lem}
use pulse_mesh.TimeSeriesStore.Range.Answer.{
  with_token, IsRequest, plan_at, plan_next, page_size_fits, requested, buffer-Sorted,
  query_range_lem,
}
use pulse_mesh.TimeSeriesStore.Range.Pagination.{cursor_of}

module _ {ℓ} {F : Type ℓ} ⦃d : Double F⦄ where
  requested_covered :
      (r : RangeRequest) (n : ℕ) (xs : List (StoredMetric F))
      → keep (is_requested r n) (keep (is_covered n) xs) ≡ keep (is_requested r n) xs
  requested_covered r n [] = refl
  requested_covered r n (x ∷ xs) = elim (Bool-cases (leb x.event_id n)) [
    | inl old ↦ elim (Bool-cases (is_requested r n x)) [
      | inl hit ↦ rw (old, hit) (ap (◌∷◌ x) (requested_covered r n xs))
      | inr miss ↦ rw (old, miss) (requested_covered r n xs)
    ]
    | inr new ↦
        let out : is_requested r n x ≡ false = ground arith in
        rw (new, out) (requested_covered r n xs)
  ]

  -- The buffer of the requested metric has not been full yet.
  abbrev pub HasRoom : RangeRequest → Store F → Type 0
  HasRoom r s = length (buffer_of r.metric_name s) < s.capacity_per_metric

  requested_later :
      (r : RangeRequest) (s t : Store F)
      → IsLaterStore s t
      → HasRoom r t
      → keep (is_requested r s.current_event_id) (buffer_of r.metric_name t) ≡ requested r s
  requested_later r s t l h =
      sym (requested_covered r s.current_event_id (buffer_of r.metric_name t))
      ∙ ap (keep (is_requested r s.current_event_id)) (l.kept r.metric_name h)

  answer_later :
      (r : RangeRequest) (y : StoredMetric F) (tok : Text) (s t : Store F)
      → IsRequest r
      → IsValid t
      → IsLaterStore s t
      → HasRoom r t
      → query_range_plan (with_token r tok) (plan_at r (some (cursor_of s y))) t
        ≡ ok (
            respond
              (state_after (plan_at r (some (cursor_of s y))) s.current_event_id (requested r s)))
  unfolding query_range_plan
  answer_later r y tok s t q v l h =
      let known : ltb t.current_event_id s.current_event_id ≡ false =
        let g = l.later in ground arith in
      rw (known, sym (requested_later r s t l h))
        (ap ok (
          page_of_lem (find r.metric_name t.metric_buffers) (with_token r tok)
            (plan_at r (some (cursor_of s y))) s.current_event_id (page_size_fits r q).1
            (buffer-Sorted r t v)))

  -- A page that is not the first is answered by a later store as by the store of the first page.
  pub query_range-later :
      (r : RangeRequest) (y : StoredMetric F) (s t : Store F)
      → IsRequest r
      → IsValid s
      → IsValid t
      → IsCursor (cursor_of s y)
      → IsLaterStore s t
      → HasRoom r t
      → let token = encode_page_token (cursor_of s y) in
        query_range (with_token r token) t ≡ query_range (with_token r token) s
  unfolding query_range
  query_range-later r y s t q u v w l h =
      let c = cursor_of s y in
      rw (plan_next r c q w, query_range) (answer_later r y (encode_page_token c) s t q v l h)
      ∙ sym (query_range_lem r (some c) (encode_page_token c) s q u refl (plan_next r c q w))

  -- A token that was given on a store leads to the same page, aggregates included, on that store and
  -- on the store after any further commits, as long as the buffer of the requested metric is not full
  -- there. The token is of the store's current event and of one of the first that many events, as
  -- those of pages that are not the last are.
  pub query_range_after_commits :
      (r : RangeRequest) (y : StoredMetric F) (s : Store F) (bs : List (MetricBatch F))
      → IsRequest r
      → IsValid s
      → IsCursor (cursor_of s y)
      → HasRoom r (commit_all bs s)
      → let token = encode_page_token (cursor_of s y) in
        query_range (with_token r token) (commit_all bs s) ≡ query_range (with_token r token) s
  query_range_after_commits r y s bs q v w h =
      query_range-later r y s (commit_all bs s) q v (commit_all-IsValid bs s v) w
        (commit_all-IsLaterStore bs s s v (IsLaterStore-itself s v)) h
