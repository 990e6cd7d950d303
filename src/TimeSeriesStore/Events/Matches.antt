-- ===== src/TimeSeriesStore/Events/Matches.antt =====
-- The matches of `query_events_after` of in_memory_time_series_store.cpp, taken from the sorted samples.
use pulse_mesh.Base.{
  ℕ, ◌<◌, ◌≤◌, ◌≡◌, refl, sym, ap, ◌∙◌, inl, inr, Bool, true, false, List, [], ◌∷◌, arith, leb,
  keep, All, All-keep, Bool-cases,
}
use pulse_mesh.Wire.{SubscribeRequest}
use pulse_mesh.TimeSeriesStore.{StoredMetric, Store}
use pulse_mesh.TimeSeriesStore.Commit.Invariant.{IsValid}
use pulse_mesh.TimeSeriesStore.Commit.Events.{count}
use pulse_mesh.TimeSeriesStore.Events.{is_wanted, insert_event, sort_events, ordered_matches}
use pulse_mesh.TimeSeriesStore.Events.Replay.{
  Ascending, all_stored, collect-all_stored, sort_events-Ascending, count-all_stored,
}

module _ {ℓ} {F : Type ℓ} where
  keep-none :
      (p : StoredMetric F → Bool) (x : StoredMetric F) (ys : List (StoredMetric F))
      → p x ≡ false
      → Ascending ys
      → keep p (insert_event x ys) ≡ keep p ys
  unfolding insert_event
  keep-none p x [] h a = rw h refl
  keep-none p x (y ∷ ys) h a = elim (Bool-cases (leb x.event_id y.event_id)) [
    | inl e ↦ rw (e, h) refl
    | inr e ↦ rw e (elim (Bool-cases (p y)) [
      | inl g ↦ rw g (ap (◌∷◌ y) (keep-none p x ys h a.1))
      | inr g ↦ rw g (keep-none p x ys h a.1)
    ])
  ]

  insert_event-front :
      (x : StoredMetric F) (ys : List (StoredMetric F))
      → All (λ y. x.event_id ≤ y.event_id) ys
      → insert_event x ys ≡ x ∷ ys
  unfolding insert_event
  insert_event-front x [] a = refl
  insert_event-front x (y ∷ ys) a =
      let h : leb x.event_id y.event_id ≡ true = let g = a.0 in ground arith in rw h refl

  at_least :
      (x y : StoredMetric F) (ys : List (StoredMetric F))
      → x.event_id ≤ y.event_id
      → All (λ z. y.event_id < z.event_id) ys
      → All (λ z. x.event_id ≤ z.event_id) ys
  at_least x y [] h a = tt
  at_least x y (z ∷ zs) h a = (let g = a.0 in omega arith, at_least x y zs h a.1)

  keep-insert_event :
      (p : StoredMetric F → Bool) (x : StoredMetric F) (ys : List (StoredMetric F))
      → p x ≡ true
      → Ascending ys
      → keep p (insert_event x ys) ≡ insert_event x (keep p ys)
  unfolding insert_event
  keep-insert_event p x [] h a = rw h refl
  keep-insert_event p x (y ∷ ys) h a = elim (Bool-cases (leb x.event_id y.event_id)) [
    | inl e ↦
        let first_of_all : All (λ z. x.event_id ≤ z.event_id) (y ∷ ys) =
          (ground arith, at_least x y ys (ground arith) a.0) in
        rw (e, h)
          (sym (insert_event-front x (keep p (y ∷ ys)) (All-keep _ p (y ∷ ys) first_of_all)))
    | inr e ↦ rw e (elim (Bool-cases (p y)) [
      | inl g ↦ rw (g, e) (ap (◌∷◌ y) (keep-insert_event p x ys h a.1))
      | inr g ↦ rw g (keep-insert_event p x ys h a.1)
    ])
  ]

  pub keep-sort_events :
      (p : StoredMetric F → Bool) (xs : List (StoredMetric F))
      → ((i : ℕ) → count i xs ≤ 1)
      → keep p (sort_events xs) ≡ sort_events (keep p xs)
  unfolding sort_events
  keep-sort_events p [] u = refl
  keep-sort_events p (x ∷ xs) u =
      let rest : (i : ℕ) → count i xs ≤ 1 = λ i. let h = u i in omega arith in
      let sorted = sort_events-Ascending xs rest in
      elim (Bool-cases (p x)) [
        | inl h ↦ rw h (
            keep-insert_event p x (sort_events xs) h sorted
            ∙ ap (insert_event x) (keep-sort_events p xs rest))
        | inr h ↦ rw h (keep-none p x (sort_events xs) h sorted ∙ keep-sort_events p xs rest)
      ]

  pub unique_events :
      (s : Store F) → IsValid s → (i : ℕ) → count i (all_stored s.metric_buffers) ≤ 1
  unique_events s v i = omega (arith, count-all_stored i s.metric_buffers, v.buffers.unique i)

  -- The matches, taken from the sorted samples of the store.
  pub ordered_matches-keep :
      (r : SubscribeRequest) (s : Store F)
      → IsValid s
      → ordered_matches r s ≡ keep (is_wanted r) (sort_events (all_stored s.metric_buffers))
  unfolding ordered_matches
  ordered_matches-keep r s v =
      ap sort_events (collect-all_stored r s.metric_buffers)
      ∙ sym (keep-sort_events (is_wanted r) (all_stored s.metric_buffers) (unique_events s v))
