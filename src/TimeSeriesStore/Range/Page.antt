-- ===== src/TimeSeriesStore/Range/Page.antt =====
-- The page loop of in_memory_time_series_store.cpp against a description of the page by lists.
use pulse_mesh.Base.{
  ℕ, zero, suc, ◌%◌, ◌<◌, ◌≤◌, ◌^◌, ◌≡◌, refl, sym, ap, ◌∙◌, inl, inr, Bool, true, false, not, ◌||◌,
  List, [], ◌∷◌, ◌++◌, map, append-nil, Option, none, some, arith, ltb, ltb→lt, ◌==◌, length,
  length-append, take, keep, Bool-cases,
}
use pulse_mesh.Wire.{Metric, RangeRequest}
use pulse_mesh.TimeSeriesStore.{StoredMetric}
use pulse_mesh.TimeSeriesStore.Filters.{of_range, matches_filters}
use pulse_mesh.TimeSeriesStore.PageToken.{RangePageCursor}
use pulse_mesh.TimeSeriesStore.Buffer.{last?}
use pulse_mesh.TimeSeriesStore.Range.{
  RangeQueryPlan, Scan, timestamp, after_option, start_scan, visit,
}

module _ {ℓ} {A : Type ℓ} where
  keep-append : (p : A → Bool) (xs ys : List A) → keep p (xs ++ ys) ≡ keep p xs ++ keep p ys
  keep-append p [] ys = refl
  keep-append p (x ∷ xs) ys = ground (arith, keep-append p xs ys)

  pub take-all : (n : ℕ) (xs : List A) → length xs ≤ n → take n xs ≡ xs
  take-all zero [] h = refl
  take-all zero (x ∷ xs) h = absurd (omega arith)
  take-all (suc n) [] h = refl
  take-all (suc n) (x ∷ xs) h = ap (◌∷◌ x) (take-all n xs (omega arith))

  take-append_full : (n : ℕ) (xs ys : List A) → n ≤ length xs → take n (xs ++ ys) ≡ take n xs
  take-append_full zero xs ys h = refl
  take-append_full (suc n) [] ys h = absurd (omega arith)
  take-append_full (suc n) (x ∷ xs) ys h = ap (◌∷◌ x) (take-append_full n xs ys (omega arith))

  pub length-take : (n : ℕ) (xs : List A) → n ≤ length xs → length (take n xs) ≡ n
  length-take zero xs h = refl
  length-take (suc n) [] h = absurd (omega arith)
  length-take (suc n) (x ∷ xs) h = omega (arith, length-take n xs)

abbrev pub HasPageSize : RangeQueryPlan → Type 0
HasPageSize plan = plan.page_size < 2 ^ 32

module _ {ℓ} {F : Type ℓ} where
  -- What the loop takes into the aggregates: the snapshot's samples that match.
  abbrev pub selects : RangeRequest → ℕ → StoredMetric F → Bool
  selects r snapshot x =
      not (ltb snapshot x.event_id || not (matches_filters x.metric (of_range r)))

  abbrev pub beyond : RangeQueryPlan → StoredMetric F → Bool
  beyond plan x = after_option (timestamp x) x.event_id plan.cursor

  abbrev pub cursor_at : ℕ → Option (StoredMetric F) → Option RangePageCursor
  cursor_at snapshot none = none
  cursor_at snapshot (some x) =
      some
        (record { snapshot_event_id = snapshot; timestamp_ms = timestamp x; event_id = x.event_id })

  abbrev metric_of : StoredMetric F → Metric F
  metric_of x = x.metric

  abbrev value_of : StoredMetric F → F
  value_of x = x.metric.value

  -- The loop's variables after the samples `seen`, in order, were selected.
  unfoldable pub state_after : RangeQueryPlan → ℕ → List (StoredMetric F) → Scan F
  state_after plan snapshot seen =
      let page = take plan.page_size (keep (beyond plan) seen) in
      record {
        metrics = map metric_of page;
        values = map value_of seen;
        last_returned = cursor_at snapshot (last? page);
        has_more = ltb plan.page_size (length (keep (beyond plan) seen));
      }

  map-snoc {κ} :
      {B : Type κ} (f : StoredMetric F → B) (xs : List (StoredMetric F)) (x : StoredMetric F)
      → map f (xs ++ (x ∷ [])) ≡ map f xs ++ (f x ∷ [])
  map-snoc f [] x = refl
  map-snoc f (y ∷ ys) x = ap (◌∷◌ (f y)) (map-snoc f ys x)

  length-map {κ} :
      {B : Type κ} (f : StoredMetric F → B) (xs : List (StoredMetric F))
      → length (map f xs) ≡ length xs
  length-map f [] = refl
  length-map f (x ∷ xs) = omega (arith, length-map f xs)

  last?-snoc : (xs : List (StoredMetric F)) (x : StoredMetric F) → last? (xs ++ (x ∷ [])) ≡ some x
  last?-snoc [] x = refl
  last?-snoc (y ∷ ys) x = rw (last?-snoc ys x)

  -- The two ways a sample behind the cursor goes: the page has room, or it is full.
  visit_room :
      (plan : RangeQueryPlan) (snapshot : ℕ) (x : StoredMetric F)
      (seen rest : List (StoredMetric F))
      → HasPageSize plan
      → length rest < plan.page_size
      → let n = plan.page_size in
        let page = take n rest in
        (((length (map metric_of page) % 2 ^ 32) == n) ≡ false)
        × (map metric_of page ++ (x.metric ∷ []) ≡ map metric_of (take n (rest ++ (x ∷ []))))
        × (cursor_at snapshot (some x) ≡ cursor_at snapshot (last? (take n (rest ++ (x ∷ [])))))
        × (ltb n (length rest) ≡ ltb n (length (rest ++ (x ∷ []))))
  visit_room plan snapshot x seen rest small h =
      let short = take-all plan.page_size rest (omega arith) in
      let long =
        take-all plan.page_size (rest ++ (x ∷ [])) (omega (arith, length-append rest (x ∷ []))) in
      rw (short, long, length-map metric_of rest, last?-snoc rest x)
        (
          ground arith,
          sym (map-snoc metric_of rest x),
          refl,
          ground (arith, length-append rest (x ∷ [])),
        )

  visit_full :
      (plan : RangeQueryPlan) (x : StoredMetric F) (rest : List (StoredMetric F))
      → HasPageSize plan
      → plan.page_size ≤ length rest
      → let n = plan.page_size in
        (((length (map metric_of (take n rest)) % 2 ^ 32) == n) ≡ true)
        × (take n rest ≡ take n (rest ++ (x ∷ [])))
        × (ltb n (length (rest ++ (x ∷ []))) ≡ true)
  visit_full plan x rest small h =
      let full = length-take plan.page_size rest h in
      let whole = length-map metric_of (take plan.page_size rest) in
      (
        ground arith,
        sym (take-append_full plan.page_size rest (x ∷ []) h),
        ground (arith, length-append rest (x ∷ [])),
      )

  visit-beyond :
      (r : RangeRequest) (plan : RangeQueryPlan) (snapshot : ℕ) (x : StoredMetric F)
      (seen : List (StoredMetric F))
      → HasPageSize plan
      → selects r snapshot x ≡ true
      → beyond plan x ≡ true
      → visit r plan snapshot x (state_after plan snapshot seen)
        ≡ state_after plan snapshot (seen ++ (x ∷ []))
  unfolding visit state_after
  visit-beyond r plan snapshot x seen small chosen after =
      let rest = keep (beyond plan) seen in
      let grown : keep (beyond plan) (seen ++ (x ∷ [])) ≡ rest ++ (x ∷ []) =
        keep-append (beyond plan) seen (x ∷ []) ∙ rw after in
      let values = map-snoc value_of seen x in
      elim (Bool-cases (ltb (length rest) plan.page_size)) [
        | inl h ↦
            let facts = visit_room plan snapshot x seen rest small (ltb→lt _ _ h) in
            rw (grown, values) (ground (arith, facts.0, facts.1, facts.2, facts.3))
        | inr h ↦
            let facts = visit_full plan x rest small (let g = h in ground arith) in
            rw (grown, values) (ground (arith, facts.0, facts.1, facts.2))
      ]

  -- One round of the page loop is the selection of one sample.
  pub visit_lem :
      (r : RangeRequest) (plan : RangeQueryPlan) (snapshot : ℕ) (x : StoredMetric F)
      (seen : List (StoredMetric F))
      → HasPageSize plan
      → visit r plan snapshot x (state_after plan snapshot seen)
        ≡ state_after plan snapshot (seen ++ keep (selects r snapshot) (x ∷ []))
  visit_lem r plan snapshot x seen small = elim (Bool-cases (selects r snapshot x)) [
    | inr out ↦ rw (out, append-nil seen) (unfold visit state_after in ground arith)
    | inl chosen ↦ elim (Bool-cases (beyond plan x)) [
      | inl after ↦ rw chosen (visit-beyond r plan snapshot x seen small chosen after)
      | inr before ↦
          let same : keep (beyond plan) (seen ++ (x ∷ [])) ≡ keep (beyond plan) seen =
            keep-append (beyond plan) seen (x ∷ [])
            ∙ rw (before, append-nil (keep (beyond plan) seen)) in
          rw chosen (unfold visit state_after in rw (same, map-snoc value_of seen x) (ground arith))
    ]
  ]

  pub state_after-nil :
      (plan : RangeQueryPlan) (snapshot : ℕ) → state_after plan snapshot [] ≡ start_scan
  unfolding state_after
  state_after-nil plan snapshot =
      rw (take-all {A = StoredMetric F} plan.page_size [] (omega arith)) (ground arith)
