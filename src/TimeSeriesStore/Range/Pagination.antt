-- ===== src/TimeSeriesStore/Range/Pagination.antt =====
-- A client that follows the page tokens of `query_range` of in_memory_time_series_store.cpp.
use mathlib.Core.Option
use pulse_mesh.Base.{
  ℕ, zero, suc, ◌<◌, ◌≤◌, ◌≡◌, refl, ap, ◌∙◌, inl, inr, true, false, Text, FitsInt64, List, [], ◌∷◌,
  ◌++◌, map, Option, none, some, arith, ltb, ltb→lt, ◌-◌, if◌then◌else◌, is_empty, length, take,
  drop, keep, All, ok, unexpected, Bool-cases,
}
use pulse_mesh.Base.Double.{Double}
use pulse_mesh.Wire.{Metric, RangeRequest, RangeResponse}
use pulse_mesh.TimeSeriesStore.{StoredMetric, Store}
use pulse_mesh.TimeSeriesStore.PageToken.{RangePageCursor, encode_page_token}
use pulse_mesh.TimeSeriesStore.PageToken.RoundTrip.{is_empty-encode}
use pulse_mesh.TimeSeriesStore.Buffer.{last?}
use pulse_mesh.TimeSeriesStore.Buffer.Order.{Sorted}
use pulse_mesh.TimeSeriesStore.Commit.Invariant.{IsValid}
use pulse_mesh.TimeSeriesStore.Range.{
  timestamp, normal_page_size, make_range_query_plan, query_range, respond,
}
use pulse_mesh.TimeSeriesStore.Range.Page.{state_after, take-all}
use pulse_mesh.TimeSeriesStore.Range.Loop.{is_requested}
use pulse_mesh.TimeSeriesStore.Range.Cursor.{keep-Sorted, keep-next_cursor}
use pulse_mesh.TimeSeriesStore.Range.Answer.{
  with_token, IsRequest, plan_at, plan_first, plan_next, page_size_fits, requested, left, IsCurrent,
  buffer-Sorted, next-IsCursor, query_range_lem,
}

module _ {ℓ} {F : Type ℓ} ⦃d : Double F⦄ where
  -- The client asks for the page of `token`, and goes on with the token of each answer until that is
  -- empty. `none` is an error of the store, or more pages than `fuel`.
  unfoldable pub follow : ℕ → RangeRequest → Text → Store F → Option (List (Metric F))
  follow zero r token s = none
  follow (suc fuel) r token s = elim (query_range (with_token r token) s) [
    | unexpected e ↦ none
    | ok page ↦
        let rest = follow fuel r page.next_page_token s in
        if is_empty page.next_page_token
        then some page.metrics
        else Option.map (λ ms. page.metrics ++ ms) rest
  ]

  abbrev pub metrics_of : List (StoredMetric F) → List (Metric F)
  metrics_of = map λ x. x.metric

  metrics-take-drop :
      (n : ℕ) (xs : List (StoredMetric F))
      → metrics_of (take n xs) ++ metrics_of (drop n xs) ≡ metrics_of xs
  metrics-take-drop zero xs = refl
  metrics-take-drop (suc n) [] = refl
  metrics-take-drop (suc n) (x ∷ xs) = ap (◌∷◌ x.metric) (metrics-take-drop n xs)

  length-drop-lt :
      (n : ℕ) (xs : List (StoredMetric F))
      → suc n ≤ length xs
      → length (drop (suc n) xs) < length xs
  length-drop-lt n [] h = absurd (omega arith)
  length-drop-lt zero (x ∷ xs) h = omega arith
  length-drop-lt (suc n) (x ∷ []) h = absurd (omega arith)
  length-drop-lt (suc n) (x ∷ y ∷ ys) h = omega (arith, length-drop-lt n (y ∷ ys))

  abbrev pub then_follow : RangeResponse F → Option (List (Metric F)) → Option (List (Metric F))
  then_follow page rest =
      if is_empty page.next_page_token
      then some page.metrics
      else Option.map (λ ms. page.metrics ++ ms) rest

  pub follow-page :
      (fuel : ℕ) (r : RangeRequest) (t : Text) (s : Store F) (page : RangeResponse F)
      → query_range (with_token r t) s ≡ ok page
      → follow (suc fuel) r t s ≡ then_follow page (follow fuel r page.next_page_token s)
  unfolding follow
  follow-page fuel r t s page e = rw (e, follow)

  -- The last page.
  pub last_page :
      (r : RangeRequest) (c : Option RangePageCursor) (s : Store F)
      (rest : Option (List (Metric F)))
      → ltb (normal_page_size r.page_size) (length (left r c s)) ≡ false
      → then_follow (respond (state_after (plan_at r c) s.current_event_id (requested r s))) rest
        ≡ some (metrics_of (left r c s))
  unfolding state_after
  last_page r c s rest h =
      rw (h, take-all (normal_page_size r.page_size) (left r c s) (let g = h in ground arith))

  -- A page with a token for the next one.
  more_pages :
      (r : RangeRequest) (c : Option RangePageCursor) (s : Store F) (n : ℕ) (y : StoredMetric F)
      (rest : List (Metric F))
      → normal_page_size r.page_size ≡ suc n
      → ltb (suc n) (length (left r c s)) ≡ true
      → last? (take (suc n) (left r c s)) ≡ some y
      → then_follow
          (respond (state_after (plan_at r c) s.current_event_id (requested r s)))
          (some rest)
        ≡ some (metrics_of (take (suc n) (left r c s)) ++ rest)
  unfolding state_after
  more_pages r c s n y rest e h l = rw (e, h, l, is_empty-encode)

  keep-everything : (xs : List (StoredMetric F)) → keep (λ x. true) xs ≡ xs
  keep-everything [] = refl
  keep-everything (x ∷ xs) = ap (◌∷◌ x) (keep-everything xs)

  abbrev pub cursor_of : Store F → StoredMetric F → RangePageCursor
  cursor_of s y = record {
    snapshot_event_id = s.current_event_id;
    timestamp_ms = timestamp y;
    event_id = y.event_id;
  }

  pub next_token :
      (r : RangeRequest) (c : Option RangePageCursor) (s : Store F) (n : ℕ) (y : StoredMetric F)
      → normal_page_size r.page_size ≡ suc n
      → ltb (suc n) (length (left r c s)) ≡ true
      → last? (take (suc n) (left r c s)) ≡ some y
      → (respond (state_after (plan_at r c) s.current_event_id (requested r s))).next_page_token
        ≡ encode_page_token (cursor_of s y)
  unfolding state_after
  next_token r c s n y e h l = rw (e, h, l)

  requested-Sorted : (r : RangeRequest) (s : Store F) → IsValid s → Sorted (requested r s)
  requested-Sorted r s v = keep-Sorted (is_requested r s.current_event_id) _ (buffer-Sorted r s v)

  follow-left :
      (fuel : ℕ) (r : RangeRequest) (t : Text) (c : Option RangePageCursor) (s : Store F) (n : ℕ)
      → normal_page_size r.page_size ≡ suc n
      → IsRequest r
      → IsValid s
      → IsCurrent s c
      → All (λ x. FitsInt64 (timestamp x)) (requested r s)
      → make_range_query_plan (with_token r t) ≡ ok (plan_at r c)
      → length (left r c s) < fuel
      → follow fuel r t s ≡ some (metrics_of (left r c s))
  follow-left zero r t c s n e q v k f p h = elim h [ ]
  follow-left (suc fuel) r t c s n e q v k f p h =
      follow-page fuel r t s _ (query_range_lem r c t s q v k p)
      ∙ elim (Bool-cases (ltb (suc n) (length (left r c s)))) [
        | inr last ↦ last_page r c s _ (rw e last)
        | inl more ↦
            let big = ltb→lt (suc n) (length (left r c s)) more in
            let (y, l, w) = next-IsCursor r c s n v f (omega arith) in
            let dropped : left r (some (cursor_of s y)) s ≡ drop (suc n) (left r c s) =
              keep-next_cursor (plan_at r c) s.current_event_id (requested r s) n y
                (requested-Sorted r s v) l in
            let shorter : length (left r (some (cursor_of s y)) s) < fuel =
              rw dropped (omega (arith, length-drop-lt n (left r c s))) in
            let rest : follow fuel r (encode_page_token (cursor_of s y)) s
                ≡ some (metrics_of (drop (suc n) (left r c s))) =
              follow-left fuel r (encode_page_token (cursor_of s y)) (some (cursor_of s y)) s n e q
                v refl f (plan_next r (cursor_of s y) q w) shorter
              ∙ ap (λ xs. some (metrics_of xs)) dropped in
            ap
              (then_follow (respond (state_after (plan_at r c) s.current_event_id (requested r s))))
              (ap (λ token. follow fuel r token s) (next_token r c s n y e more l) ∙ rest)
            ∙ more_pages r c s n y _ e more l
            ∙ ap some (metrics-take-drop (suc n) (left r c s))
      ]

  -- A client that asks for the first page of a request that the store accepts, and then for the page
  -- of each token until there is none, on a store that commits made and that does not change in
  -- between, is given every requested sample exactly once, in order of timestamp and event ID; one page more than the samples
  -- is enough. The request names no token, and the samples' timestamps are in the range of `int64_t`.
  pub follow-requested :
      (r : RangeRequest) (s : Store F)
      → IsRequest r
      → IsValid s
      → All (λ x. FitsInt64 (timestamp x)) (requested r s)
      → follow (suc (length (requested r s))) r [] s ≡ some (metrics_of (requested r s))
  follow-requested r s q v f =
      let n = normal_page_size r.page_size - 1 in
      let e : normal_page_size r.page_size ≡ suc n = omega (arith, (page_size_fits r q).0) in
      let all : left r none s ≡ requested r s = keep-everything (requested r s) in
      follow-left (suc (length (requested r s))) r [] none s n e q v tt f (plan_first r q)
        (rw all (omega arith))
      ∙ ap (λ xs. some (metrics_of xs)) all
