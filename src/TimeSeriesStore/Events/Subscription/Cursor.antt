-- ===== src/TimeSeriesStore/Events/Subscription/Cursor.antt =====
-- Where a client of in_memory_time_series_store.cpp stands after the events that it was given.
use pulse_mesh.Base.{
  ℕ, zero, suc, ◌≡◌, refl, sym, ap, ◌∙◌, ◌⊎◌, inl, inr, List, [], ◌∷◌, ◌++◌, map, none, some, arith,
  length, take, drop, append_assoc, append-nil, Option-cases, ok,
}
use pulse_mesh.Base.Double.{Double}
use pulse_mesh.Wire.{SubscribeRequest}
use pulse_mesh.TimeSeriesStore.{StoredMetric, Store}
use pulse_mesh.TimeSeriesStore.Buffer.{last?}
use pulse_mesh.TimeSeriesStore.Commit.Invariant.{IsValid}
use pulse_mesh.TimeSeriesStore.Range.Cursor.{last?-some}
use pulse_mesh.TimeSeriesStore.Events.{ordered_matches, to_event, query_events_after}
use pulse_mesh.TimeSeriesStore.Events.Resume.{ordered_matches-after}
use pulse_mesh.TimeSeriesStore.Events.Subscription.{IsSubscription}
use pulse_mesh.TimeSeriesStore.Subscriber.{after, resume}

module _ {ℓ} {F : Type ℓ} ⦃d : Double F⦄ where
  -- The request behind the events `done`.
  abbrev pub reached : SubscribeRequest → List (StoredMetric F) → SubscribeRequest
  reached r done = elim (last? done) [ none ↦ r | some y ↦ after y.event_id r ]

  pub reached-IsSubscription :
      (limit : ℕ) (r : SubscribeRequest) (done : List (StoredMetric F))
      → IsSubscription limit r
      → IsSubscription limit (reached r done)
  reached-IsSubscription limit r done v = elim (Option-cases (last? done)) [
    | inl e ↦ rw (e, reached) v
    | inr (y, e) ↦
        rw (e, reached)
          (record {
            filters = v.filters;
            cursor = ground arith;
            positive = v.positive;
            bounded = v.bounded;
          })
  ]

  last?-snoc : (xs : List (StoredMetric F)) (x : StoredMetric F) → last? (xs ++ x ∷ []) ≡ some x
  last?-snoc [] x = refl
  last?-snoc (y ∷ ys) x = rw (last?-snoc ys x) refl

  reached-snoc :
      (r : SubscribeRequest) (done : List (StoredMetric F)) (x : StoredMetric F)
      → after x.event_id (reached r done) ≡ reached r (done ++ x ∷ [])
  reached-snoc r done x =
      rw (last?-snoc done x, reached)
        (elim (Option-cases (last? done)) [
          | inl e ↦ rw (e, reached) refl
          | inr (y, e) ↦ rw (e, reached) refl
        ])

  pub resume-reached :
      (r : SubscribeRequest) (done chunk : List (StoredMetric F))
      → resume (reached r done) (map to_event chunk) ≡ reached r (done ++ chunk)
  resume-reached r done [] = ap (reached r) (sym (append-nil done))
  resume-reached r done (x ∷ xs) =
      ap (λ q. resume q (map to_event xs)) (reached-snoc r done x)
      ∙ resume-reached r (done ++ x ∷ []) xs
      ∙ ap (reached r) (append_assoc done (x ∷ []) xs)

  take-append : (xs ys : List (StoredMetric F)) → take (length xs) (xs ++ ys) ≡ xs
  take-append [] ys = refl
  take-append (x ∷ xs) ys = ap (◌∷◌ x) (take-append xs ys)

  drop-append : (xs ys : List (StoredMetric F)) → drop (length xs) (xs ++ ys) ≡ ys
  drop-append [] ys = refl
  drop-append (x ∷ xs) ys = drop-append xs ys

  pub take-drop : (n : ℕ) (xs : List (StoredMetric F)) → take n xs ++ drop n xs ≡ xs
  take-drop zero xs = refl
  take-drop (suc n) [] = refl
  take-drop (suc n) (x ∷ xs) = ap (◌∷◌ x) (take-drop n xs)

  pub ordered_matches-reached :
      (r : SubscribeRequest) (s : Store F) (done rest : List (StoredMetric F))
      → IsValid s
      → ordered_matches r s ≡ done ++ rest
      → ordered_matches (reached r done) s ≡ rest
  ordered_matches-reached r s [] rest v e = e
  ordered_matches-reached r s (x ∷ xs) rest v e =
      let (y, l) = last?-some (x ∷ xs) (omega arith) in
      let front = ap (take (suc (length xs))) e ∙ take-append (x ∷ xs) rest in
      rw (l, reached)
        (ordered_matches-after r s (length xs) y v (ap last? front ∙ l)
          ∙ ap (drop (suc (length xs))) e
          ∙ drop-append (x ∷ xs) rest)

  pub answer :
      (limit : ℕ) (r : SubscribeRequest) (s : Store F)
      → IsSubscription limit r
      → query_events_after r limit s ≡ ok (map to_event (take limit (ordered_matches r s)))
  unfolding query_events_after
  answer limit r s v =
      let low = v.positive in
      let high = v.bounded in rw (v.filters, query_events_after, v.cursor) (ground arith)

  -- The next events are all that are left, or as many as the limit.
  pub length-take :
      (n : ℕ) (xs : List (StoredMetric F))
      → (length (take n xs) ≡ n) ⊎ (length (take n xs) ≡ length xs)
  length-take zero xs = inl refl
  length-take (suc n) [] = inr refl
  length-take (suc n) (x ∷ xs) = elim (length-take n xs) [
    | inl e ↦ inl (omega arith)
    | inr e ↦ inr (omega arith)
  ]
