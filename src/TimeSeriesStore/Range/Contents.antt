-- ===== src/TimeSeriesStore/Range/Contents.antt =====
-- One answer of `query_range` of in_memory_time_series_store.cpp: the page, its aggregates, its token.
use mathlib.Core.List.{foldl}
use pulse_mesh.Base.{
  ◌<◌, ◌≤◌, ◌≡◌, refl, ap, inl, inr, Text, List, [], ◌∷◌, map, Option, none, some, arith, length,
  ltb, take, ok, Bool-cases, false, true,
}
use pulse_mesh.Base.Double.{Double, max_of, min_of}
use pulse_mesh.Wire.{RangeRequest, RangeResponse}
use pulse_mesh.TimeSeriesStore.{StoredMetric, Store}
use pulse_mesh.TimeSeriesStore.PageToken.{RangePageCursor, encode_page_token}
use pulse_mesh.TimeSeriesStore.PageToken.RoundTrip.{IsCursor}
use pulse_mesh.TimeSeriesStore.Buffer.{last?}
use pulse_mesh.TimeSeriesStore.Commit.Invariant.{IsValid}
use pulse_mesh.TimeSeriesStore.Range.{
  normal_page_size, make_range_query_plan, query_range, respond, compute_stats,
}
use pulse_mesh.TimeSeriesStore.Range.Page.{state_after, length-take}
use pulse_mesh.TimeSeriesStore.Range.Cursor.{last?-some}
use pulse_mesh.TimeSeriesStore.Range.Pagination.{cursor_of}
use pulse_mesh.TimeSeriesStore.Range.Answer.{
  IsRequest, IsCurrent, requested, left, with_token, plan_at, plan_first, plan_next, page_size_fits,
  query_range_lem,
}

module _ {ℓ} {F : Type ℓ} ⦃d : Double F⦄ where
  -- The token of a first page, or one that the store gives out as it is now.
  abbrev pub IsToken : Store F → Text → Option RangePageCursor → Type 0
  IsToken s t none = t ≡ []
  IsToken s t (some c) =
      IsCursor c × (c.snapshot_event_id ≡ s.current_event_id) × (t ≡ encode_page_token c)

  -- The mean, and the values that `std::max` and `std::min` find; zeros without any values.
  abbrev pub Aggregates : List F → RangeResponse F → Type ℓ
  Aggregates [] p = (p.avg ≡ d.nought) × (p.max ≡ d.nought) × (p.min ≡ d.nought)
  Aggregates (v ∷ vs) p =
      (p.avg ≡ d.div (foldl d.add d.nought (v ∷ vs)) (d.of_ℕ (length (v ∷ vs))))
      × (p.max ≡ foldl max_of v vs)
      × (p.min ≡ foldl min_of v vs)

  -- The answer to a request, for the samples behind a cursor.
  pub record IsAnswer (r : RangeRequest) (c : Option RangePageCursor) (s : Store F)
      (p : RangeResponse F) : Type ℓ where
    pub metrics : p.metrics ≡ map (λ x. x.metric) (take (normal_page_size r.page_size) (left r c s))
    pub aggregates : Aggregates (map (λ x. x.metric.value) (requested r s)) p
    pub last_page : length (left r c s) ≤ normal_page_size r.page_size → p.next_page_token ≡ []
    pub next_page :
        normal_page_size r.page_size < length (left r c s)
        → (y : StoredMetric F) × (last? (take (normal_page_size r.page_size) (left r c s)) ≡ some y)
          × (p.next_page_token ≡ encode_page_token (cursor_of s y))

  max_of-same : (v : F) → max_of v v ≡ v
  max_of-same v = elim (Bool-cases (d.lt v v)) [ inl e ↦ rw e refl | inr e ↦ rw e refl ]

  min_of-same : (v : F) → min_of v v ≡ v
  min_of-same v = max_of-same v

  respond-IsAnswer :
      (r : RangeRequest) (c : Option RangePageCursor) (s : Store F)
      → IsRequest r
      → IsAnswer r c s (respond (state_after (plan_at r c) s.current_event_id (requested r s)))
  unfolding state_after compute_stats
  respond-IsAnswer r c s q =
      let n = normal_page_size r.page_size in
      record {
        metrics = refl;
        aggregates = aggregates_of (requested r s);
        last_page = λ h. let e : ltb n (length (left r c s)) ≡ false = ground arith in rw e refl;
        next_page = λ h.
            let e : ltb n (length (left r c s)) ≡ true = ground arith in
            let (y, f) =
              last?-some (take n (left r c s))
                (omega (arith, length-take n (left r c s) (omega arith), (page_size_fits r q).0)) in
            (y, f, rw (e, f) refl);
      }
    where
      aggregates_of :
          (xs : List (StoredMetric F))
          → Aggregates
              (map (λ x. x.metric.value) xs)
              (respond (state_after (plan_at r c) s.current_event_id xs))
      aggregates_of [] = (refl, refl, refl)
      aggregates_of (x ∷ xs) = (
        refl,
        ap (λ v. foldl max_of v (map (λ y. y.metric.value) xs)) (max_of-same x.metric.value),
        ap (λ v. foldl min_of v (map (λ y. y.metric.value) xs)) (min_of-same x.metric.value),
      )

  token-plan :
      (r : RangeRequest) (c : Option RangePageCursor) (t : Text) (s : Store F)
      → IsRequest r
      → IsToken s t c
      → make_range_query_plan (with_token r t) ≡ ok (plan_at r c)
  token-plan r none t s q h = rw h (plan_first r q)
  token-plan r (some c) t s q h = rw h.2 (plan_next r c q h.0)

  token-IsCurrent :
      (c : Option RangePageCursor) (t : Text) (s : Store F) → IsToken s t c → IsCurrent s c
  token-IsCurrent none t s h = tt
  token-IsCurrent (some c) t s h = h.1

  -- On a store that commits made, a request with valid filters, interval and page size, without a
  -- token or with one of a cursor whose snapshot is the store's last event, is answered. The page has
  -- the first requested samples behind the cursor, up to the page size, in the order of the buffer.
  -- The aggregates are those of all requested samples, whatever the cursor, so that they are the same
  -- on every page: the sum divided by the number, and the folds of `std::max` and `std::min`, or
  -- zeros without any samples. If samples are left behind the page, the token is that of the page's
  -- last sample, and otherwise it is empty.
  pub query_range-IsAnswer :
      (r : RangeRequest) (c : Option RangePageCursor) (t : Text) (s : Store F)
      → IsRequest r
      → IsValid s
      → IsToken s t c
      → (p : RangeResponse F) × (query_range (with_token r t) s ≡ ok p) × IsAnswer r c s p
  query_range-IsAnswer r c t s q v h = (
    _,
    query_range_lem r c t s q v (token-IsCurrent c t s h) (token-plan r c t s q h),
    respond-IsAnswer r c s q,
  )
