-- ===== src/TimeSeriesStore/Events/Resume.antt =====
-- A subscriber that asks `query_events_after` of in_memory_time_series_store.cpp again, with the ID
-- of the last event that it was given.
use pulse_mesh.Base.{
  ℕ, zero, suc, ◌<◌, ◌≤◌, ◌≡◌, refl, sym, ap, subst, ◌∙◌, inl, inr, Bool, true, false, ◌&&◌, pos,
  ltb_ℤ, List, [], ◌∷◌, map, some, none, codes, arith, ltb, take, drop, keep, All, Bool-cases, ok,
}
use pulse_mesh.Base.Double.{Double}
use pulse_mesh.Wire.{SubscribeRequest}
use pulse_mesh.TimeSeriesStore.{StoredMetric, Store, maximum_page_size}
use pulse_mesh.TimeSeriesStore.Filters.{of_subscribe, matches_filters, validate_query_filters}
use pulse_mesh.TimeSeriesStore.Subscriber.{after, later_cursor}
use pulse_mesh.TimeSeriesStore.Buffer.{last?}
use pulse_mesh.TimeSeriesStore.Commit.Invariant.{IsValid}
use pulse_mesh.TimeSeriesStore.Range.Cursor.{All-take, All-last, last?-cons_cons}
use pulse_mesh.TimeSeriesStore.Events.{
  is_wanted, sort_events, ordered_matches, to_event, query_events_after,
}
use pulse_mesh.TimeSeriesStore.Events.Matches.{ordered_matches-keep}
use pulse_mesh.TimeSeriesStore.Events.Replay.{Ascending, ordered_matches-IsReplay, all_stored}

pub and_left : (a b : Bool) → (a && b) ≡ true → a ≡ true
and_left true b h = refl
and_left false b h = h

module _ {ℓ} {F : Type ℓ} where
  abbrev pub newer_than : ℕ → StoredMetric F → Bool
  newer_than i x = ltb i x.event_id

  pub keep-newer :
      (i : ℕ) (xs : List (StoredMetric F))
      → All (λ x. i < x.event_id) xs
      → keep (newer_than i) xs ≡ xs
  keep-newer i [] a = refl
  keep-newer i (x ∷ xs) a =
      let h : ltb i x.event_id ≡ true = let g = a.0 in ground arith in
      rw h (ap (◌∷◌ x) (keep-newer i xs a.1))

  -- Behind the last of the first elements stand those with a later event ID.
  keep-newer_than_last :
      (n : ℕ) (xs : List (StoredMetric F)) (y : StoredMetric F)
      → Ascending xs
      → last? (take (suc n) xs) ≡ some y
      → keep (newer_than y.event_id) xs ≡ drop (suc n) xs
  keep-newer_than_last n [] y a h = absurd (cc)
  keep-newer_than_last zero (x ∷ xs) y a h =
      let e : x ≡ y = cc in
      let i : y.event_id ≡ x.event_id = ap (λ z. z.event_id) (sym e) in
      let f : ltb y.event_id x.event_id ≡ false = ground arith in
      rw f (keep-newer y.event_id xs (subst (λ z. All (λ w. z.event_id < w.event_id) xs) e a.0))
  keep-newer_than_last (suc n) (x ∷ []) y a h =
      let e : x ≡ y = cc in
      let i : y.event_id ≡ x.event_id = ap (λ z. z.event_id) (sym e) in
      let f : ltb y.event_id x.event_id ≡ false = ground arith in rw f refl
  keep-newer_than_last (suc n) (x ∷ z ∷ zs) y a h =
      let g = sym (last?-cons_cons x z (take n zs)) ∙ h in
      let low : x.event_id < y.event_id =
        All-last (λ w. x.event_id < w.event_id) (take (suc n) (z ∷ zs)) y g
          (All-take (λ w. x.event_id < w.event_id) (suc n) (z ∷ zs) a.0) in
      let f : ltb y.event_id x.event_id ≡ false = ground arith in
      rw f (keep-newer_than_last n (z ∷ zs) y a.1 g)

  pub All-kept :
      (p : StoredMetric F → Bool) (xs : List (StoredMetric F)) → All (λ x. p x ≡ true) (keep p xs)
  All-kept p [] = tt
  All-kept p (x ∷ xs) = elim (Bool-cases (p x)) [
    | inl h ↦ rw h (h, All-kept p xs)
    | inr h ↦ rw h (All-kept p xs)
  ]

  keep-after :
      (r : SubscribeRequest) (i : ℕ) (xs : List (StoredMetric F))
      → ltb_ℤ r.after_event_id (pos i) ≡ true
      → keep (is_wanted (after i r)) xs ≡ keep (newer_than i) (keep (is_wanted r) xs)
  keep-after r i [] h = refl
  keep-after r i (x ∷ xs) h = elim (Bool-cases (ltb i x.event_id)) [
    | inl g ↦
        let e = later_cursor r.after_event_id i x.event_id h g in
        elim (Bool-cases (matches_filters x.metric (of_subscribe r))) [
          | inl m ↦ rw (g, e, m) (rw g (ap (◌∷◌ x) (keep-after r i xs h)))
          | inr m ↦ rw (g, e, m) (keep-after r i xs h)
        ]
    | inr g ↦ rw g (elim (Bool-cases (is_wanted r x)) [
      | inl w ↦ rw w (rw g (keep-after r i xs h))
      | inr w ↦ rw w (keep-after r i xs h)
    ])
  ]

  pub ordered_matches-after :
      (r : SubscribeRequest) (s : Store F) (n : ℕ) (y : StoredMetric F)
      → IsValid s
      → last? (take (suc n) (ordered_matches r s)) ≡ some y
      → ordered_matches (after y.event_id r) s ≡ drop (suc n) (ordered_matches r s)
  ordered_matches-after r s n y v h =
      let sorted = sort_events (all_stored s.metric_buffers) in
      let e = ordered_matches-keep r s v in
      let wanted : is_wanted r y ≡ true =
        All-last (λ x. is_wanted r x ≡ true) (take (suc n) (ordered_matches r s)) y h
          (All-take (λ x. is_wanted r x ≡ true) (suc n) (ordered_matches r s)
            (subst (All (λ x. is_wanted r x ≡ true)) (sym e) (All-kept (is_wanted r) sorted))) in
      ordered_matches-keep (after y.event_id r) s v
      ∙ keep-after r y.event_id sorted (and_left _ _ wanted)
      ∙ ap (keep (newer_than y.event_id)) (sym e)
      ∙ keep-newer_than_last n (ordered_matches r s) y (ordered_matches-IsReplay r s v).ascending h

module _ {ℓ} {F : Type ℓ} ⦃d : Double F⦄ where
  -- A subscriber that was given the first `n` matching events of a store that commits made, `n` not
  -- zero, and asks again with the ID of the last of them, is answered with the events that follow,
  -- up to the new limit: no event is left out and none comes twice. The filters are valid, the limit
  -- is from 1 to 10000, and the store has not changed in between.
  pub query_events_after-resume :
      (r : SubscribeRequest) (s : Store F) (n : ℕ) (y : StoredMetric F) (limit : ℕ)
      → validate_query_filters (of_subscribe r) (codes "query_events_after") ≡ none
      → 0 < limit
      → limit ≤ maximum_page_size
      → IsValid s
      → last? (take (suc n) (ordered_matches r s)) ≡ some y
      → query_events_after (after y.event_id r) limit s
        ≡ ok (map to_event (take limit (drop (suc n) (ordered_matches r s))))
  unfolding query_events_after
  query_events_after-resume r s n y limit f low high v h =
      rw (f, query_events_after, ordered_matches-after r s n y v h) (ground arith)
