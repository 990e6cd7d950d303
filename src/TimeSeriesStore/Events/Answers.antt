-- ===== src/TimeSeriesStore/Events/Answers.antt =====
-- What i_time_series_store.h says of the answers of `query_events_after`, for
-- in_memory_time_series_store.cpp.
use pulse_mesh.Base.{
  ℕ, zero, suc, ◌≤◌, ◌<◌, ◌≡◌, refl, sym, subst, inl, inr, true, pos, ltb_ℤ, Text, List, [], ◌∷◌,
  map, take, arith, leb, keep, length, All, All-map, ok, unexpected, Bool-cases,
}
use pulse_mesh.Base.Double.{Double}
use pulse_mesh.Wire.{SubscribeRequest, MetricEvent}
use pulse_mesh.TimeSeriesStore.{TimeSeriesStoreError, StoredMetric, Store}
use pulse_mesh.TimeSeriesStore.Commit.Samples.{IsSample, All-find}
use pulse_mesh.TimeSeriesStore.Commit.Invariant.{IsValid}
use pulse_mesh.TimeSeriesStore.Range.Cursor.{All-take}
use pulse_mesh.TimeSeriesStore.Events.{
  current_event_id, is_wanted, insert_event, sort_events, ordered_matches, to_event,
  query_events_after,
}
use pulse_mesh.TimeSeriesStore.Events.Resume.{and_left}
use pulse_mesh.TimeSeriesStore.Events.Cases.{query_events_after_cases}
use pulse_mesh.TimeSeriesStore.Events.Growth.{ordered_matches-buffer}
use pulse_mesh.TimeSeriesStore.Events.Replay.{Ascending, ordered_matches-IsReplay}
use pulse_mesh.TimeSeriesStore.Interface.{Increasing, AreEvents}

module _ {ℓ} {F : Type ℓ} ⦃d : Double F⦄ where
  pub query_events_after-no_limit :
      (r : SubscribeRequest) (s : Store F)
      → (e : TimeSeriesStoreError) × (query_events_after r 0 s ≡ unexpected e)
  query_events_after-no_limit r s =
      query_events_after_cases (λ a. (e : TimeSeriesStoreError) × (a ≡ unexpected e)) r 0 s
        (λ e. (e, refl)) (λ low high. absurd (omega (arith, low)))

  length-take : (n : ℕ) (xs : List (StoredMetric F)) → length (map to_event (take n xs)) ≤ n
  length-take zero xs = omega arith
  length-take (suc n) [] = omega arith
  length-take (suc n) (x ∷ xs) = omega (arith, length-take n xs)

  All-map_event {κ} :
      (P : ℕ → Type κ) (xs : List (StoredMetric F))
      → All (λ x. P x.event_id) xs
      → All (λ e. P e.event_id) (map to_event xs)
  All-map_event P [] a = tt
  All-map_event P (x ∷ xs) a = (a.0, All-map_event P xs a.1)

  Ascending-Increasing :
      (n : ℕ) (xs : List (StoredMetric F)) → Ascending xs → Increasing (map to_event (take n xs))
  Ascending-Increasing zero xs a = tt
  Ascending-Increasing (suc n) [] a = tt
  Ascending-Increasing (suc n) (x ∷ xs) a = (
    All-map_event (λ i. x.event_id < i) (take n xs)
        (All-take (λ y. x.event_id < y.event_id) n xs a.0),
    Ascending-Increasing n xs a.1,
  )

  All-insert_event {κ} :
      (P : StoredMetric F → Type κ) (x : StoredMetric F) (ys : List (StoredMetric F))
      → P x
      → All P ys
      → All P (insert_event x ys)
  unfolding insert_event
  All-insert_event P x [] p a = (p, tt)
  All-insert_event P x (y ∷ ys) p a = elim (Bool-cases (leb x.event_id y.event_id)) [
    | inl e ↦ rw e (p, a)
    | inr e ↦ rw e (a.0, All-insert_event P x ys p a.1)
  ]

  All-sort_events {κ} :
      (P : StoredMetric F → Type κ) (xs : List (StoredMetric F)) → All P xs → All P (sort_events xs)
  unfolding sort_events
  All-sort_events P [] a = tt
  All-sort_events P (x ∷ xs) a =
      All-insert_event P x (sort_events xs) a.0 (All-sort_events P xs a.1)

  -- What the collected matches have in common.
  abbrev IsMatch : SubscribeRequest → ℕ → StoredMetric F → Type 0
  IsMatch r current x = (ltb_ℤ r.after_event_id (pos x.event_id) ≡ true) × (x.event_id ≤ current)

  keep-IsMatch :
      (r : SubscribeRequest) (name : Text) (current : ℕ) (xs : List (StoredMetric F))
      → All (IsSample name current) xs
      → All (IsMatch r current) (keep (is_wanted r) xs)
  keep-IsMatch r name current [] a = tt
  keep-IsMatch r name current (x ∷ xs) a = elim (Bool-cases (is_wanted r x)) [
    | inl h ↦ rw h ((and_left _ _ h, a.0.committed_before), keep-IsMatch r name current xs a.1)
    | inr h ↦ rw h (keep-IsMatch r name current xs a.1)
  ]

  ordered_matches-IsMatch :
      (r : SubscribeRequest) (s : Store F)
      → IsValid s
      → All (IsMatch r s.current_event_id) (ordered_matches r s)
  ordered_matches-IsMatch r s v =
      subst (All (IsMatch r s.current_event_id)) (sym (ordered_matches-buffer r s v)) (
        All-sort_events (IsMatch r s.current_event_id) _ (
          keep-IsMatch r r.metric_name s.current_event_id _
            (All-find s.capacity_per_metric s.current_event_id r.metric_name s.metric_buffers
              v.buffers.buffers).samples))

  answer-IsMatch :
      (r : SubscribeRequest) (limit : ℕ) (s : Store F)
      → IsValid s
      → All (IsMatch r s.current_event_id) (take limit (ordered_matches r s))
  answer-IsMatch r limit s v =
      All-take (IsMatch r s.current_event_id) limit _ (ordered_matches-IsMatch r s v)

  answer-AreEvents :
      (r : SubscribeRequest) (limit : ℕ) (s : Store F)
      → IsValid s
      → AreEvents r limit (map to_event (take limit (ordered_matches r s)))
  answer-AreEvents r limit s v =
      let xs = take limit (ordered_matches r s) in
      record {
        limited = length-take limit (ordered_matches r s);
        after_cursor =
            All-map_event (λ i. ltb_ℤ r.after_event_id (pos i) ≡ true) xs
              (All-map _ _ xs (λ x (m : IsMatch r s.current_event_id x). m.0)
                (answer-IsMatch r limit s v));
        increasing =
            Ascending-Increasing limit (ordered_matches r s)
              (ordered_matches-IsReplay r s v).ascending;
      }

  pub query_events_after-events :
      (r : SubscribeRequest) (limit : ℕ) (s : Store F) (es : List (MetricEvent F))
      → IsValid s
      → query_events_after r limit s ≡ ok es
      → AreEvents r limit es
  query_events_after-events r limit s es v =
      query_events_after_cases (λ a. a ≡ ok es → AreEvents r limit es) r limit s
        (λ e h. absurd (cc))
        (λ low high h.
          let same : map to_event (take limit (ordered_matches r s)) ≡ es = cc in
          subst (AreEvents r limit) same (answer-AreEvents r limit s v))

  pub query_events_after-latest :
      (r : SubscribeRequest) (limit current : ℕ) (s : Store F) (es : List (MetricEvent F))
      → IsValid s
      → current_event_id s ≡ ok current
      → query_events_after r limit s ≡ ok es
      → All (λ e. e.event_id ≤ current) es
  unfolding current_event_id
  query_events_after-latest r limit current s es v c =
      query_events_after_cases (λ a. a ≡ ok es → All (λ e. e.event_id ≤ current) es) r limit s
        (λ e h. absurd (cc))
        (λ low high h.
          let xs = take limit (ordered_matches r s) in
          let numbered : s.current_event_id ≡ current =
            let k : ok s.current_event_id ≡ ok current = c in cc in
          let same : map to_event xs ≡ es = cc in
          subst (All (λ e. e.event_id ≤ current)) same (
            All-map_event (λ i. i ≤ current) xs
              (All-map _ _ xs
                (λ x (m : IsMatch r s.current_event_id x). let k = m.1 in omega (arith, numbered))
                (answer-IsMatch r limit s v))))
