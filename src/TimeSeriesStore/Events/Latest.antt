-- ===== src/TimeSeriesStore/Events/Latest.antt =====
-- `query_latest` of in_memory_time_series_store.cpp and the order of the buffer.
use mathlib.Core.List.{reverse, reverse-cons}
use pulse_mesh.Base.{
  Occurs, first, later, ◌≡◌, ◌⊎◌, refl, inl, inr, true, false, List, [], ◌∷◌, ◌++◌, Option, some,
  none, arith, All, keep, Bool-cases, Option-cases, ok, codes, ap, sym, ◌∙◌, subst,
}
use pulse_mesh.Base.Maps.{find}
use pulse_mesh.Wire.{LatestRequest, LatestResponse}
use pulse_mesh.TimeSeriesStore.{StoredMetric, Store}
use pulse_mesh.TimeSeriesStore.Filters.{Filters, of_latest, matches_filters, validate_query_filters}
use pulse_mesh.TimeSeriesStore.Buffer.{last?}
use pulse_mesh.TimeSeriesStore.Buffer.Order.{Before, Sorted}
use pulse_mesh.TimeSeriesStore.Commit.{buffer_or_empty}
use pulse_mesh.TimeSeriesStore.Commit.Samples.{All-find}
use pulse_mesh.TimeSeriesStore.Commit.Invariant.{IsValid}
use pulse_mesh.TimeSeriesStore.Range.Cursor.{All-last, last?-some, last?-cons_cons, keep-Sorted}
use pulse_mesh.TimeSeriesStore.Events.{first_match, latest_of, query_latest}

module _ {ℓ} {F : Type ℓ} where
  abbrev pub matching : Filters → List (StoredMetric F) → List (StoredMetric F)
  matching f = keep λ x. matches_filters x.metric f

  first_match-append :
      (f : Filters) (xs ys : List (StoredMetric F))
      → first_match f (xs ++ ys)
        ≡ elim (first_match f xs) [ none ↦ first_match f ys | some r ↦ some r ]
  unfolding first_match
  first_match-append f [] ys = refl
  first_match-append f (x ∷ xs) ys = ground (arith, first_match-append f xs ys)

  abbrev answer_of : Option (StoredMetric F) → Option (LatestResponse F)
  answer_of none = none
  answer_of (some x) = some (record { metric = x.metric })

  one_hit :
      (f : Filters) (x : StoredMetric F)
      → matches_filters x.metric f ≡ true
      → first_match f (x ∷ []) ≡ some (record { metric = x.metric })
  unfolding first_match
  one_hit f x h = rw h

  one_miss :
      (f : Filters) (x : StoredMetric F)
      → matches_filters x.metric f ≡ false
      → first_match f (x ∷ []) ≡ none
  unfolding first_match
  one_miss f x h = rw h

  first_match-reverse :
      (f : Filters) (xs : List (StoredMetric F))
      → first_match f (reverse xs) ≡ answer_of (last? (matching f xs))
  first_match-reverse f [] = unfold first_match in refl
  first_match-reverse f (x ∷ xs) =
      ap (first_match f) (reverse-cons x xs)
      ∙ first_match-append f (reverse xs) (x ∷ [])
      ∙ rw (first_match-reverse f xs) (elim (Bool-cases (matches_filters x.metric f)) [
        | inr miss ↦ rw miss (elim (Option-cases (last? (matching f xs))) [
          | inl e ↦ rw (e, one_miss f x miss)
          | inr (y, e) ↦ rw e
        ])
        | inl hit ↦ rw hit (elim (Option-cases (last? (matching f xs))) [
          | inl e ↦ rw (e, one_hit f x hit)
          | inr (y, e) ↦ rw e
        ])
      ])

  -- `x` is the newest of the list: every sample of it is `x` or comes before `x`.
  abbrev pub IsNewest : StoredMetric F → List (StoredMetric F) → Type ℓ
  IsNewest x xs = Occurs x xs × All (λ y. (y ≡ x) ⊎ Before y x) xs

  last?-IsNewest :
      (xs : List (StoredMetric F)) (x : StoredMetric F)
      → Sorted xs
      → last? xs ≡ some x
      → IsNewest x xs
  last?-IsNewest [] x d h = absurd (cc)
  last?-IsNewest (y ∷ []) x d h = let e : y ≡ x = cc in (first e, (inl e, tt))
  last?-IsNewest (y ∷ z ∷ zs) x d h =
      let rest = sym (last?-cons_cons y z zs) ∙ h in
      let (o, a) = last?-IsNewest (z ∷ zs) x d.1 rest in
      (later o, (inr (All-last (Before y) (z ∷ zs) x rest d.0), a))

  -- What `query_latest` may answer about the matching samples.
  abbrev pub IsLatest : List (StoredMetric F) → Option (LatestResponse F) → Type ℓ
  IsLatest xs none = xs ≡ []
  IsLatest xs (some r) = (x : StoredMetric F) × (r.metric ≡ x.metric) × IsNewest x xs

  last?-IsLatest : (xs : List (StoredMetric F)) → Sorted xs → IsLatest xs (answer_of (last? xs))
  last?-IsLatest [] d = refl
  last?-IsLatest (x ∷ xs) d =
      let (y, e) = last?-some (x ∷ xs) (omega arith) in
      rw e (y, refl, last?-IsNewest (x ∷ xs) y d e)

  buffer_answer :
      (f : Filters) (o : Option (List (StoredMetric F)))
      → Sorted (buffer_or_empty o)
      → IsLatest (matching f (buffer_or_empty o)) (latest_of f o)
  unfolding latest_of
  buffer_answer f none d = refl
  buffer_answer f (some b) d =
      subst (IsLatest (matching f b)) (sym (first_match-reverse f b))
        (last?-IsLatest (matching f b) (keep-Sorted _ b d))

  -- On a store that commits made, a request that passes validation is answered with the metric of the
  -- matching sample of its buffer that comes last by timestamp and event ID, and with nothing exactly
  -- if no sample matches.
  pub query_latest-IsLatest :
      (r : LatestRequest) (s : Store F)
      → validate_query_filters (of_latest r) (codes "query_latest") ≡ none
      → IsValid s
      → (a : Option (LatestResponse F)) × (query_latest r s ≡ ok a)
        × IsLatest
            (matching (of_latest r) (buffer_or_empty (find r.metric_name s.metric_buffers)))
            a
  unfolding query_latest
  query_latest-IsLatest r s h v = (
    latest_of (of_latest r) (find r.metric_name s.metric_buffers),
    rw (h, query_latest),
    buffer_answer (of_latest r) (find r.metric_name s.metric_buffers)
        (All-find s.capacity_per_metric s.current_event_id r.metric_name s.metric_buffers
          v.buffers.buffers).sorted,
  )
