-- ===== src/TimeSeriesStore/Commit/Cases.antt =====
-- The four ways through `commit_batch` of in_memory_time_series_store.cpp.
use pulse_mesh.Base.{
  ◌-◌, ◌<◌, ◌≤◌, ◌≡◌, inl, inr, true, false, none, some, arith, ltb, codes, length, Expected, ok,
  unexpected, Bool-cases, Option-cases,
}
use pulse_mesh.Base.Double.{Double}
use pulse_mesh.Wire.{MetricBatch}
use pulse_mesh.TimeSeriesStore.{
  BatchCommitOutcome, committed, duplicate, TimeSeriesStoreError, make_error, constraint, Store,
  max_int64,
}
use pulse_mesh.TimeSeriesStore.Commit.{contains, validate_batch, commit_metrics, commit_batch}

abbrev pub exhausted : TimeSeriesStoreError
exhausted = make_error constraint (codes "commit_batch") (codes "event_id_exhausted") false

module _ {ℓ κ} {F : Type ℓ} ⦃d : Double F⦄
    (P : Expected TimeSeriesStoreError BatchCommitOutcome × Store F → Type κ) where
  pub commit_cases :
      (b : MetricBatch F) (s : Store F)
      → ((e : TimeSeriesStoreError) → validate_batch b ≡ some e → P (unexpected e, s))
      → (validate_batch b ≡ none
          → contains s.committed_batch_ids b.batch_id ≡ true
          → P (ok duplicate, s))
      → (validate_batch b ≡ none
          → contains s.committed_batch_ids b.batch_id ≡ false
          → max_int64 - s.current_event_id < length b.metrics
          → P (unexpected exhausted, s))
      → (validate_batch b ≡ none
          → contains s.committed_batch_ids b.batch_id ≡ false
          → length b.metrics ≤ max_int64 - s.current_event_id
          → P (ok committed, commit_metrics b s))
      → P (commit_batch b s)
  unfolding commit_batch
  commit_cases b s bad dup full good = elim (Option-cases (validate_batch b)) [
    | inr (e, v) ↦ rw (v, commit_batch) (bad e v)
    | inl v ↦ elim (Bool-cases (contains s.committed_batch_ids b.batch_id)) [
      | inl old ↦ rw (v, commit_batch, old) (dup v old)
      | inr fresh ↦ elim (Bool-cases (ltb (max_int64 - s.current_event_id) (length b.metrics))) [
        | inl h ↦ rw (v, commit_batch, fresh, h) (full v fresh (ground arith))
        | inr h ↦ rw (v, commit_batch, fresh, h) (good v fresh (ground arith))
      ]
    ]
  ]
