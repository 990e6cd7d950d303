-- ===== src/TimeSeriesStore/Events/Replay.antt =====
-- `query_events_after` of in_memory_time_series_store.cpp and the samples that the store holds.
use mathlib.Core.List.{Perm}
use mathlib.Core.List.Perm
use pulse_mesh.Base.{
  ℕ, ◌+◌, ◌<◌, ◌≤◌, ◌≡◌, refl, ◌⊎◌, inl, inr, false, pos, ltb_ℤ, List, [], ◌∷◌, ◌++◌, map, codes,
  arith, none, leb, ok, take, keep, All, Bool, Bool-cases, ◌∙◌, sym, ap, subst,
}
use pulse_mesh.Base.Double.{Double}
use pulse_mesh.Wire.{SubscribeRequest}
use pulse_mesh.TimeSeriesStore.{StoredMetric, Buffers, Store, maximum_page_size}
use pulse_mesh.TimeSeriesStore.Filters.{of_subscribe, validate_query_filters}
use pulse_mesh.TimeSeriesStore.Commit.Invariant.{IsValid}
use pulse_mesh.TimeSeriesStore.Commit.Events.{is_event, count, count_all}
use pulse_mesh.TimeSeriesStore.Events.{
  is_wanted, collect, insert_event, sort_events, ordered_matches, to_event, query_events_after,
}

module _ {ℓ} {F : Type ℓ} where
  -- Strictly in the order of event IDs.
  abbrev pub Ascending : List (StoredMetric F) → Type 0
  Ascending [] = Unit
  Ascending (x ∷ xs) = All (λ y. x.event_id < y.event_id) xs × Ascending xs

  -- All samples that the store holds.
  pub all_stored : Buffers F → List (StoredMetric F)
  all_stored [] = []
  all_stored ((name, buffer) ∷ rest) = buffer ++ all_stored rest

  keep-append :
      (p : StoredMetric F → Bool) (xs ys : List (StoredMetric F))
      → keep p (xs ++ ys) ≡ keep p xs ++ keep p ys
  keep-append p [] ys = refl
  keep-append p (x ∷ xs) ys = ground (arith, keep-append p xs ys)

  pub collect-all_stored :
      (r : SubscribeRequest) (m : Buffers F) → collect r m ≡ keep (is_wanted r) (all_stored m)
  unfolding collect all_stored
  collect-all_stored r [] = refl
  collect-all_stored r ((name, buffer) ∷ rest) =
      ap (λ xs. keep (is_wanted r) buffer ++ xs) (collect-all_stored r rest)
      ∙ sym (keep-append (is_wanted r) buffer (all_stored rest))

  insert_event-perm :
      (x : StoredMetric F) (ys : List (StoredMetric F)) → Perm (insert_event x ys) (x ∷ ys)
  unfolding insert_event
  insert_event-perm x [] = Perm.refl (x ∷ [])
  insert_event-perm x (y ∷ ys) = elim (Bool-cases (leb x.event_id y.event_id)) [
    | inl h ↦ rw h (Perm.refl (x ∷ y ∷ ys))
    | inr h ↦ rw h (Perm.trans (Perm.cons y (insert_event-perm x ys)) (Perm.swap x y ys))
  ]

  sort_events-perm : (xs : List (StoredMetric F)) → Perm (sort_events xs) xs
  unfolding sort_events
  sort_events-perm [] = Perm.refl []
  sort_events-perm (x ∷ xs) =
      Perm.trans (insert_event-perm x (sort_events xs)) (Perm.cons x (sort_events-perm xs))

  count-insert_event :
      (i : ℕ) (x : StoredMetric F) (ys : List (StoredMetric F))
      → count i (insert_event x ys) ≡ is_event i x + count i ys
  unfolding insert_event
  count-insert_event i x [] = refl
  count-insert_event i x (y ∷ ys) = elim (Bool-cases (leb x.event_id y.event_id)) [
    | inl h ↦ rw h refl
    | inr h ↦ rw h (omega (arith, count-insert_event i x ys))
  ]

  count-sort_events : (i : ℕ) (xs : List (StoredMetric F)) → count i (sort_events xs) ≡ count i xs
  unfolding sort_events
  count-sort_events i [] = refl
  count-sort_events i (x ∷ xs) =
      omega (arith, count-insert_event i x (sort_events xs), count-sort_events i xs)

  pub count-keep :
      (i : ℕ) (p : StoredMetric F → Bool) (xs : List (StoredMetric F))
      → count i (keep p xs) ≤ count i xs
  count-keep i p [] = omega arith
  count-keep i p (x ∷ xs) = ground (arith, count-keep i p xs)

  count-append :
      (i : ℕ) (xs ys : List (StoredMetric F)) → count i (xs ++ ys) ≡ count i xs + count i ys
  count-append i [] ys = omega arith
  count-append i (x ∷ xs) ys = omega (arith, count-append i xs ys)

  pub count-all_stored : (i : ℕ) (m : Buffers F) → count i (all_stored m) ≡ count_all i m
  unfolding all_stored
  count-all_stored i [] = refl
  count-all_stored i ((name, buffer) ∷ rest) =
      omega (arith, count-append i buffer (all_stored rest), count-all_stored i rest)

  All-insert_event :
      (y x : StoredMetric F) (ys : List (StoredMetric F))
      → y.event_id < x.event_id
      → All (λ z. y.event_id < z.event_id) ys
      → All (λ z. y.event_id < z.event_id) (insert_event x ys)
  unfolding insert_event
  All-insert_event y x [] h a = (h, tt)
  All-insert_event y x (z ∷ zs) h a = elim (Bool-cases (leb x.event_id z.event_id)) [
    | inl e ↦ rw e (h, a)
    | inr e ↦ rw e (a.0, All-insert_event y x zs h a.1)
  ]

  All-later :
      (x y : StoredMetric F) (ys : List (StoredMetric F))
      → x.event_id < y.event_id
      → All (λ z. y.event_id < z.event_id) ys
      → All (λ z. x.event_id < z.event_id) ys
  All-later x y [] h a = tt
  All-later x y (z ∷ zs) h a = (let g = a.0 in omega arith, All-later x y zs h a.1)

  insert_event-Ascending :
      (x : StoredMetric F) (ys : List (StoredMetric F))
      → Ascending ys
      → count x.event_id ys ≡ 0
      → Ascending (insert_event x ys)
  unfolding insert_event
  insert_event-Ascending x [] a c = (tt, tt)
  insert_event-Ascending x (y ∷ ys) a c =
      let differs : (x.event_id < y.event_id) ⊎ (y.event_id < x.event_id) = ground arith in
      elim (Bool-cases (leb x.event_id y.event_id)) [
        | inl e ↦
            let h : x.event_id < y.event_id = ground arith in rw e ((h, All-later x y ys h a.0), a)
        | inr e ↦ rw e (
          All-insert_event y x ys (ground arith) a.0,
          insert_event-Ascending x ys a.1 (omega arith),
        )
      ]

  pub sort_events-Ascending :
      (xs : List (StoredMetric F)) → ((i : ℕ) → count i xs ≤ 1) → Ascending (sort_events xs)
  unfolding sort_events
  sort_events-Ascending [] u = tt
  sort_events-Ascending (x ∷ xs) u =
      insert_event-Ascending x (sort_events xs)
        (sort_events-Ascending xs (λ i. let h = u i in omega arith))
        (let h = u x.event_id in let e = count-sort_events x.event_id xs in ground arith)

  -- All stored samples that the request asks for, each once, in the order of their event IDs.
  pub record IsReplay (r : SubscribeRequest) (s : Store F) (xs : List (StoredMetric F))
      : Type ℓ where
    pub complete : Perm xs (keep (is_wanted r) (all_stored s.metric_buffers))
    pub ascending : Ascending xs

  pub ordered_matches-IsReplay :
      (r : SubscribeRequest) (s : Store F) → IsValid s → IsReplay r s (ordered_matches r s)
  unfolding ordered_matches
  ordered_matches-IsReplay r s v = record {
    complete =
        subst (Perm (sort_events (collect r s.metric_buffers)))
          (collect-all_stored r s.metric_buffers) (sort_events-perm (collect r s.metric_buffers));
    ascending = sort_events-Ascending (collect r s.metric_buffers) (λ i. omega (
      arith,
      ap (count i) (collect-all_stored r s.metric_buffers),
      count-keep i (is_wanted r) (all_stored s.metric_buffers),
      count-all_stored i s.metric_buffers,
      v.buffers.unique i,
    ));
  }

module _ {ℓ} {F : Type ℓ} ⦃d : Double F⦄ where
  -- On a store that commits made, a request with valid filters, a cursor that is not negative and a
  -- limit from 1 to 10000 is answered with the first events, up to the limit, of all stored samples
  -- that match the filters and have a later event ID than the cursor. These come in the strict order
  -- of their event IDs, from whatever buffers, each once.
  pub query_events_after-Replay :
      (r : SubscribeRequest) (limit : ℕ) (s : Store F)
      → validate_query_filters (of_subscribe r) (codes "query_events_after") ≡ none
      → ltb_ℤ r.after_event_id (pos 0) ≡ false
      → 0 < limit
      → limit ≤ maximum_page_size
      → IsValid s
      → (xs : List (StoredMetric F)) × (query_events_after r limit s
          ≡ ok (map to_event (take limit xs)))
        × IsReplay r s xs
  unfolding query_events_after
  query_events_after-Replay r limit s f a low high v = (
    ordered_matches r s,
    rw (f, query_events_after, a) (ground arith),
    ordered_matches-IsReplay r s v,
  )
