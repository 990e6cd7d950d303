-- ===== src/TimeSeriesStore/Log/Latest.antt =====
-- `query_latest` of in_memory_time_series_store.cpp against the log: an eviction never takes the sample
-- that comes last.
use mathlib.Core.List.{Perm}
use pulse_mesh.Base.{
  All-Occurs, later, ℕ, suc, ◌<◌, ◌≡◌, refl, ap, subst, ◌∙◌, inl, inr, true, false, Text, List, [],
  ◌∷◌, Option, none, some, arith, leb, text_eq, text_eq_iff, is_empty, codes, length, keep, All,
  Bool-cases, ok,
}
use pulse_mesh.Base.Double.{Double}
use pulse_mesh.Wire.{MetricBatch, LatestRequest, LatestResponse}
use pulse_mesh.TimeSeriesStore.{StoredMetric, new}
use pulse_mesh.TimeSeriesStore.Filters.{
  of_latest, matches_filters, matches_tags, validate_query_filters,
}
use pulse_mesh.TimeSeriesStore.Buffer.Order.{Before, Sorted}
use pulse_mesh.TimeSeriesStore.Buffer.Newest.{newest}
use pulse_mesh.TimeSeriesStore.Commit.{commit_all}
use pulse_mesh.TimeSeriesStore.Commit.Samples.{IsSample, All-find}
use pulse_mesh.TimeSeriesStore.Commit.Invariant.{commit_all-new-IsValid}
use pulse_mesh.TimeSeriesStore.Events.{query_latest}
use pulse_mesh.TimeSeriesStore.Events.Latest.{matching, IsLatest, query_latest-IsLatest}
use pulse_mesh.TimeSeriesStore.Log.{Log, empty, is_named, Logs, answers}
use pulse_mesh.TimeSeriesStore.Log.Refinement.{commit_all-new-Logs}

-- The latest sample of a name, of any client and with any tags.
abbrev pub unfiltered : Text → LatestRequest
unfiltered name = record { metric_name = name; tags_filter = []; client_id = none }

valid-unfiltered :
    (name : Text)
    → is_empty name ≡ false
    → validate_query_filters (of_latest (unfiltered name)) (codes "query_latest") ≡ none
unfolding validate_query_filters
valid-unfiltered name h = rw h refl

module _ {ℓ} {F : Type ℓ} where
  IsLatest-cons :
      (x : StoredMetric F) (xs : List (StoredMetric F)) (a : Option (LatestResponse F))
      → 0 < length xs
      → All (Before x) xs
      → IsLatest xs a
      → IsLatest (x ∷ xs) a
  IsLatest-cons x [] none h b l = absurd (omega (arith, h))
  IsLatest-cons x (y ∷ ys) none h b l = absurd (cc)
  IsLatest-cons x xs (some r) h b (y, e, (o, a)) =
      (y, e, (later o, (inr (All-Occurs (Before x) xs y o b), a)))

  IsLatest-newest :
      (n : ℕ) (xs : List (StoredMetric F)) (a : Option (LatestResponse F))
      → 0 < n
      → Sorted xs
      → IsLatest (newest n xs) a
      → IsLatest xs a
  IsLatest-newest n [] a h d l = l
  IsLatest-newest n (x ∷ xs) a h d l = elim (Bool-cases (leb (suc (length xs)) n)) [
    | inl e ↦ subst (λ ys. IsLatest ys a) (rw e refl) l
    | inr e ↦
        let m : newest n (x ∷ xs) ≡ newest n xs = rw e refl in
        IsLatest-cons x xs a (ground arith) d.0
          (IsLatest-newest n xs a h d.1 (subst (λ ys. IsLatest ys a) m l))
  ]

  matching-unfiltered :
      (name : Text) (n : ℕ) (xs : List (StoredMetric F))
      → All (IsSample name n) xs
      → matching (of_latest (unfiltered name)) xs ≡ xs
  unfolding matches_filters matches_tags
  matching-unfiltered name n [] a = refl
  matching-unfiltered name n (x ∷ xs) a =
      let e : text_eq x.metric.name name ≡ true = (text_eq_iff x.metric.name name).1 a.0.named in
      rw e (ap (◌∷◌ x) (matching-unfiltered name n xs a.1))

module _ {ℓ} {F : Type ℓ} ⦃d : Double F⦄ where
  -- After any commits on a new store of any capacity, a request for the latest sample of a name, with
  -- no other filter, is answered with the sample that comes last, by timestamp and event ID, among
  -- all that were ever committed under that name, evicted ones included, and with nothing exactly if
  -- there are none; the log is that of the commits.
  pub query_latest-Logs :
      (capacity : ℕ) (bs : List (MetricBatch F)) (name : Text)
      → is_empty name ≡ false
      → (l : Log F) × Logs empty bs (answers bs (new capacity)) l
        × ((whole : List (StoredMetric F)) × Perm whole (keep (is_named name) l.samples)
            × ((a : Option (LatestResponse F)) × (query_latest
                    (unfiltered name)
                    (commit_all bs (new capacity))
                  ≡ ok a)
                × IsLatest whole a))
  query_latest-Logs capacity bs name h =
      let s = commit_all bs (new capacity) in
      let v = commit_all-new-IsValid capacity bs in
      let (l, logs, r) = commit_all-new-Logs capacity bs in
      let view = r.buffers name in
      let (a, answer, latest) =
        query_latest-IsLatest (unfiltered name) s (valid-unfiltered name h) v in
      let samples =
        (All-find s.capacity_per_metric s.current_event_id name s.metric_buffers
          v.buffers.buffers).samples in
      let kept = matching-unfiltered name s.current_event_id _ samples ∙ view.kept in
      (
        l,
        logs,
        (
          view.whole,
          view.contents,
          (
            a,
            answer,
            IsLatest-newest s.capacity_per_metric view.whole a r.has_room view.sorted
                (subst (λ ys. IsLatest ys a) kept latest),
          ),
        ),
      )
