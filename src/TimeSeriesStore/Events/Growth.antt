-- ===== src/TimeSeriesStore/Events/Growth.antt =====
-- The matches of `query_events_after` of in_memory_time_series_store.cpp on a later store: what
-- `commit_batch` adds comes behind what was there.
use pulse_mesh.Base.{
  ℕ, ◌<◌, ◌≤◌, ◌≡◌, refl, sym, ap, subst, ◌∙◌, inl, inr, Bool, false, Text, List, [], ◌∷◌, ◌++◌,
  arith, leb, ltb, text_eq, text_eq_iff, length, keep, append-nil, All, Bool-cases,
}
use pulse_mesh.Base.Maps.{find, has_key, DistinctKeys}
use pulse_mesh.Wire.{SubscribeRequest}
use pulse_mesh.TimeSeriesStore.{StoredMetric, Buffers, Store}
use pulse_mesh.TimeSeriesStore.Filters.{of_subscribe, matches_filters}
use pulse_mesh.TimeSeriesStore.Commit.{buffer_or_empty}
use pulse_mesh.TimeSeriesStore.Commit.Samples.{IsSample, IsEntry}
use pulse_mesh.TimeSeriesStore.Commit.Invariant.{IsValid}
use pulse_mesh.TimeSeriesStore.Commit.Events.{count}
use pulse_mesh.TimeSeriesStore.Commit.Snapshot.{buffer_of, is_covered, IsLaterStore}
use pulse_mesh.TimeSeriesStore.Events.{is_wanted, collect, sort_events, ordered_matches}
use pulse_mesh.TimeSeriesStore.Events.Matches.{unique_events, keep-sort_events}
use pulse_mesh.TimeSeriesStore.Events.Replay.{
  Ascending, all_stored, collect-all_stored, count-keep, ordered_matches-IsReplay,
}
use pulse_mesh.TimeSeriesStore.Events.Resume.{newer_than, keep-newer}

module _ {ℓ} {F : Type ℓ} where
  -- The buffer of the requested metric is not full.
  abbrev pub HasRoom : SubscribeRequest → Store F → Type 0
  HasRoom r s = length (buffer_of r.metric_name s) < s.capacity_per_metric

  other_name :
      (r : SubscribeRequest) (name : Text) (x : StoredMetric F)
      → text_eq name r.metric_name ≡ false
      → x.metric.name ≡ name
      → matches_filters x.metric (of_subscribe r) ≡ false
  unfolding matches_filters
  other_name r name x n e = rw (e, n) refl

  keep-other :
      (r : SubscribeRequest) (name : Text) (last : ℕ) (xs : List (StoredMetric F))
      → text_eq name r.metric_name ≡ false
      → All (IsSample name last) xs
      → keep (is_wanted r) xs ≡ []
  keep-other r name last [] n a = refl
  keep-other r name last (x ∷ xs) n a =
      let miss = other_name r name x n a.0.named in
      let out : is_wanted r x ≡ false = ground arith in rw out (keep-other r name last xs n a.1)

  collect-absent :
      (r : SubscribeRequest) (capacity last : ℕ) (m : Buffers F)
      → has_key r.metric_name m ≡ false
      → All (IsEntry capacity last) m
      → collect r m ≡ []
  unfolding collect has_key
  collect-absent r capacity last [] h a = refl
  collect-absent r capacity last ((j, b) ∷ m) h a =
      let n : text_eq j r.metric_name ≡ false = ground arith in
      rw (keep-other r j last b n a.0.samples) (collect-absent r capacity last m (ground arith) a.1)

  collect-buffer :
      (r : SubscribeRequest) (capacity last : ℕ) (m : Buffers F)
      → DistinctKeys m
      → All (IsEntry capacity last) m
      → collect r m ≡ keep (is_wanted r) (buffer_or_empty (find r.metric_name m))
  unfolding collect find
  collect-buffer r capacity last [] d a = refl
  collect-buffer r capacity last ((j, b) ∷ m) d a = elim (Bool-cases (text_eq j r.metric_name)) [
    | inl e ↦
        let gone : collect r m ≡ [] =
          collect-absent r capacity last m
            (subst (λ k. has_key k m ≡ false) ((text_eq_iff j r.metric_name).0 e) d.0) a.1 in
        rw (e, gone) (append-nil (keep (is_wanted r) b))
    | inr n ↦ rw (n, keep-other r j last b n a.0.samples) (collect-buffer r capacity last m d.1 a.1)
  ]

  -- Only the buffer of the requested name has matches.
  pub ordered_matches-buffer :
      (r : SubscribeRequest) (s : Store F)
      → IsValid s
      → ordered_matches r s ≡ sort_events (keep (is_wanted r) (buffer_of r.metric_name s))
  unfolding ordered_matches
  ordered_matches-buffer r s v = ap sort_events (
      collect-buffer r s.capacity_per_metric s.current_event_id s.metric_buffers v.buffers.distinct
        v.buffers.buffers)

  wanted_once :
      (r : SubscribeRequest) (s : Store F)
      → IsValid s
      → (i : ℕ) → count i (keep (is_wanted r) (buffer_of r.metric_name s)) ≤ 1
  wanted_once r s v i =
      let e =
        sym (collect-all_stored r s.metric_buffers)
        ∙ collect-buffer r s.capacity_per_metric s.current_event_id s.metric_buffers
            v.buffers.distinct v.buffers.buffers in
      omega (
        arith,
        ap (count i) e,
        count-keep i (is_wanted r) (all_stored s.metric_buffers),
        unique_events s v i,
      )

  keep-swap :
      (p q : StoredMetric F → Bool) (xs : List (StoredMetric F))
      → keep p (keep q xs) ≡ keep q (keep p xs)
  keep-swap p q [] = refl
  keep-swap p q (x ∷ xs) = elim (Bool-cases (p x)) [
    | inl h ↦ elim (Bool-cases (q x)) [
      | inl g ↦ rw (h, g) (rw h (ap (◌∷◌ x) (keep-swap p q xs)))
      | inr g ↦ rw (h, g) (keep-swap p q xs)
    ]
    | inr h ↦ elim (Bool-cases (q x)) [
      | inl g ↦ rw (h, g) (rw h (keep-swap p q xs))
      | inr g ↦ rw (h, g) (keep-swap p q xs)
    ]
  ]

  -- Of the matches of a later store, those that the old store could have are its matches.
  ordered_matches-covered :
      (r : SubscribeRequest) (s t : Store F)
      → IsValid s
      → IsValid t
      → IsLaterStore s t
      → HasRoom r t
      → keep (is_covered s.current_event_id) (ordered_matches r t) ≡ ordered_matches r s
  ordered_matches-covered r s t u v l h =
      let covered = is_covered s.current_event_id in
      let now = buffer_of r.metric_name t in
      ap (keep covered) (ordered_matches-buffer r t v)
      ∙ keep-sort_events covered (keep (is_wanted r) now) (wanted_once r t v)
      ∙ ap sort_events (keep-swap covered (is_wanted r) now)
      ∙ ap (λ xs. sort_events (keep (is_wanted r) xs)) (l.kept r.metric_name h)
      ∙ sym (ordered_matches-buffer r s u)

  keep-none_covered :
      (n : ℕ) (xs : List (StoredMetric F))
      → All (λ x. n < x.event_id) xs
      → keep (is_covered n) xs ≡ []
  keep-none_covered n [] a = refl
  keep-none_covered n (x ∷ xs) a =
      let e : leb x.event_id n ≡ false = let h = a.0 in ground arith in
      rw e (keep-none_covered n xs a.1)

  later-All :
      (n : ℕ) (x : StoredMetric F) (xs : List (StoredMetric F))
      → n < x.event_id
      → All (λ y. x.event_id < y.event_id) xs
      → All (λ y. n < y.event_id) xs
  later-All n x [] h a = tt
  later-All n x (y ∷ ys) h a = (let g = a.0 in omega arith, later-All n x ys h a.1)

  Ascending-splits :
      (n : ℕ) (xs : List (StoredMetric F))
      → Ascending xs
      → xs ≡ keep (is_covered n) xs ++ keep (newer_than n) xs
  Ascending-splits n [] a = refl
  Ascending-splits n (x ∷ xs) a = elim (Bool-cases (leb x.event_id n)) [
    | inl old ↦
        let e : ltb n x.event_id ≡ false = ground arith in
        rw (old, e) (ap (◌∷◌ x) (Ascending-splits n xs a.1))
    | inr new ↦
        let low : n < x.event_id = ground arith in
        let all : All (λ y. n < y.event_id) (x ∷ xs) = (low, later-All n x xs low a.0) in
        rw (keep-none_covered n (x ∷ xs) all) (sym (keep-newer n (x ∷ xs) all))
  ]

  -- The matches of a later store, in which the requested buffer has room, are the old ones followed
  -- by newer ones.
  pub ordered_matches-grow :
      (r : SubscribeRequest) (s t : Store F)
      → IsValid s
      → IsValid t
      → IsLaterStore s t
      → HasRoom r t
      → (new : List (StoredMetric F)) × (ordered_matches r t ≡ ordered_matches r s ++ new)
  ordered_matches-grow r s t u v l h =
      let new = keep (newer_than s.current_event_id) (ordered_matches r t) in
      (
        new,
        Ascending-splits s.current_event_id (ordered_matches r t)
              (ordered_matches-IsReplay r t v).ascending
            ∙ ap (λ xs. xs ++ new) (ordered_matches-covered r s t u v l h),
      )
