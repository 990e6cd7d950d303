-- ===== src/TimeSeriesStore/Commit/Once.antt =====
-- The results of `commit_batch` of in_memory_time_series_store.cpp, and its retries.
use pulse_mesh.Base.{
  ◌+◌, ◌<◌, ◌≤◌, ◌≡◌, refl, ap, ◌⊎◌, inl, inr, true, false, Text, List, [], ◌∷◌, none, some, arith,
  text_eq_refl, length, Expected, ok, unexpected,
}
use pulse_mesh.Base.Double.{Double}
use pulse_mesh.Wire.{MetricBatch}
use pulse_mesh.TimeSeriesStore.{
  BatchCommitOutcome, committed, duplicate, TimeSeriesStoreError, Store, max_int64,
}
use pulse_mesh.TimeSeriesStore.Commit.Cases.{commit_cases}
use pulse_mesh.TimeSeriesStore.Commit.InPlace.{insert_metrics, commit_metrics_in_place}
use pulse_mesh.TimeSeriesStore.Commit.{
  contains, validate_batch, commit_metrics, commit_batch, commit_all,
}

module _ {ℓ} {F : Type ℓ} ⦃d : Double F⦄ where
  -- What a caller of `commit_batch` learns from each result.
  abbrev pub Outcome :
      MetricBatch F → Store F → Expected TimeSeriesStoreError BatchCommitOutcome × Store F → Type ℓ
  Outcome b s (unexpected e, t) =
      (t ≡ s)
      × ((validate_batch b ≡ some e)
          ⊎ ((validate_batch b ≡ none)
              × (contains s.committed_batch_ids b.batch_id ≡ false)
              × (max_int64 < s.current_event_id + length b.metrics)))
  Outcome b s (ok duplicate, t) =
      (t ≡ s) × (validate_batch b ≡ none) × (contains s.committed_batch_ids b.batch_id ≡ true)
  Outcome b s (ok committed, t) =
      (validate_batch b ≡ none)
      × (contains s.committed_batch_ids b.batch_id ≡ false)
      × (contains t.committed_batch_ids b.batch_id ≡ true)
      × (t.metric_buffers
          ≡ insert_metrics s.capacity_per_metric b.client_id s.metric_buffers b.metrics
              s.current_event_id)
      × (t.current_event_id ≡ s.current_event_id + length b.metrics)
      × (s.current_event_id ≤ max_int64 → t.current_event_id ≤ max_int64)

  -- `commit_batch` leaves the store as it was unless it answers "committed". It refuses a batch that
  -- is not valid, or whose metrics would push the event counter over the range of `int64_t`, and it
  -- answers "duplicate" for a recorded batch ID. Otherwise it records the ID, inserts the metrics one
  -- by one into the buffers and advances the counter by their number, within that range.
  pub commit_batch-Outcome : (b : MetricBatch F) (s : Store F) → Outcome b s (commit_batch b s)
  commit_batch-Outcome b s =
      commit_cases (Outcome b s) b s (λ e h. (refl, inl h)) (λ h o. (refl, h, o))
        (λ h o f. (refl, inr (h, o, omega arith)))
        (λ h o room.
          unfold commit_metrics contains in
          (
            h,
            o,
            rw (text_eq_refl b.batch_id),
            ap (λ t. t.metric_buffers) (commit_metrics_in_place b s),
            refl,
            λ fits. omega arith,
          ))

  commit_batch_known :
      (b : MetricBatch F) (s : Store F)
      → validate_batch b ≡ none
      → contains s.committed_batch_ids b.batch_id ≡ true
      → commit_batch b s ≡ (ok duplicate, s)
  commit_batch_known b s good old =
      commit_cases (λ r. r ≡ (ok duplicate, s)) b s (λ e h. cc) (λ h o. refl) (λ h o f. cc)
        (λ h o room. cc)

  pub contains-commit_batch :
      (id : Text) (b : MetricBatch F) (s : Store F)
      → contains s.committed_batch_ids id ≡ true
      → contains (commit_batch b s).1.committed_batch_ids id ≡ true
  contains-commit_batch id b s h =
      commit_cases (λ r. contains r.1.committed_batch_ids id ≡ true) b s (λ e v. h) (λ v o. h)
        (λ v o f. h) (λ v o room. unfold commit_metrics contains in ground arith)

  contains-commit_all :
      (id : Text) (bs : List (MetricBatch F)) (s : Store F)
      → contains s.committed_batch_ids id ≡ true
      → contains (commit_all bs s).committed_batch_ids id ≡ true
  unfolding commit_all
  contains-commit_all id [] s h = h
  contains-commit_all id (b ∷ bs) s h =
      contains-commit_all id bs (commit_batch b s).1 (contains-commit_batch id b s h)

  recorded :
      (b : MetricBatch F) (s : Store F)
      → (commit_batch b s).0 ≡ ok committed
      → (validate_batch b ≡ none)
        × (contains (commit_batch b s).1.committed_batch_ids b.batch_id ≡ true)
  recorded b s =
      commit_cases
        (λ r.
          r.0 ≡ ok committed
          → (validate_batch b ≡ none) × (contains r.1.committed_batch_ids b.batch_id ≡ true))
        b s (λ e h c. absurd (cc)) (λ h o c. (h, o)) (λ h o f c. absurd (cc))
        (λ h o room c. unfold commit_metrics contains in (h, rw (text_eq_refl b.batch_id)))

  -- After a batch was committed, and whatever was committed since, sending it again is answered
  -- "duplicate" and changes nothing.
  pub commit_batch_again :
      (b : MetricBatch F) (s : Store F) (bs : List (MetricBatch F))
      → (commit_batch b s).0 ≡ ok committed
      → let t = commit_all bs (commit_batch b s).1 in commit_batch b t ≡ (ok duplicate, t)
  commit_batch_again b s bs h =
      commit_batch_known b _ (recorded b s h).0
        (contains-commit_all b.batch_id bs (commit_batch b s).1 (recorded b s h).1)
