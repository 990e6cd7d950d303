-- ===== src/TimeSeriesStore/InMemory.antt =====
-- InMemoryTimeSeriesStore of in_memory_time_series_store.h, which implements the interface of
-- i_time_series_store.h.
use pulse_mesh.Base.{◌≡◌, refl, true, Text, ok, unexpected, text_eq_refl}
use pulse_mesh.Base.Double.{Double}
use pulse_mesh.Wire.{MetricBatch}
use pulse_mesh.TimeSeriesStore.{
  BatchCommitOutcome, committed, duplicate, TimeSeriesStoreError, Store,
}
use pulse_mesh.TimeSeriesStore.Commit.{contains, commit_batch, commit_metrics}
use pulse_mesh.TimeSeriesStore.Commit.Cases.{commit_cases}
use pulse_mesh.TimeSeriesStore.Commit.Once.{contains-commit_batch}
use pulse_mesh.TimeSeriesStore.Commit.Invariant.{IsValid, commit_batch-IsValid}
use pulse_mesh.TimeSeriesStore.Range.{query_range}
use pulse_mesh.TimeSeriesStore.Events.{query_latest, current_event_id, query_events_after}
use pulse_mesh.TimeSeriesStore.Events.Answers.{
  query_events_after-no_limit, query_events_after-events, query_events_after-latest,
}
use pulse_mesh.TimeSeriesStore.Interface.{ITimeSeriesStore, IsTimeSeriesStore}

module _ {ℓ} {F : Type ℓ} ⦃d : Double F⦄ where
  abbrev pub in_memory : ITimeSeriesStore F
  in_memory = record {
    State = Store F;
    commit_batch = commit_batch;
    query_range = query_range;
    query_latest = query_latest;
    current_event_id = current_event_id;
    query_events_after = query_events_after;
  }

  abbrev pub IsRecorded : Text → Store F → Type 0
  IsRecorded id s = contains s.committed_batch_ids id ≡ true

  pub recorded :
      (b : MetricBatch F) (s : Store F) (o : BatchCommitOutcome)
      → (commit_batch b s).0 ≡ ok o
      → IsRecorded b.batch_id (commit_batch b s).1
  recorded b s o =
      commit_cases (λ r. r.0 ≡ ok o → IsRecorded b.batch_id r.1) b s (λ e h c. absurd (cc))
        (λ h k c. k) (λ h k f c. absurd (cc))
        (λ h k room c. unfold commit_metrics contains in rw (text_eq_refl b.batch_id))

  pub unrecorded :
      (b : MetricBatch F) (s : Store F)
      → (commit_batch b s).0 ≡ ok committed
      → ¬ IsRecorded b.batch_id s
  unrecorded b s =
      commit_cases (λ r. r.0 ≡ ok committed → ¬ IsRecorded b.batch_id s) b s (λ e h c. absurd (cc))
        (λ h k c. absurd (cc)) (λ h k f c. absurd (cc)) (λ h k room c j. absurd (cc))

  pub repeated :
      (b : MetricBatch F) (s : Store F)
      → (commit_batch b s).0 ≡ ok duplicate
      → IsRecorded b.batch_id s × ((commit_batch b s).1 ≡ s)
  repeated b s =
      commit_cases (λ r. r.0 ≡ ok duplicate → IsRecorded b.batch_id s × (r.1 ≡ s)) b s
        (λ e h c. absurd (cc)) (λ h k c. (k, refl)) (λ h k f c. absurd (cc))
        (λ h k room c. absurd (cc))

  pub refused :
      (b : MetricBatch F) (s : Store F) (e : TimeSeriesStoreError)
      → (commit_batch b s).0 ≡ unexpected e
      → (commit_batch b s).1 ≡ s
  refused b s e =
      commit_cases (λ r. r.0 ≡ unexpected e → r.1 ≡ s) b s (λ f h c. refl) (λ h k c. refl)
        (λ h k f c. refl) (λ h k room c. absurd (cc))

  -- The in-memory store keeps what the interface promises.
  abbrev pub in_memory_laws : IsTimeSeriesStore in_memory
  in_memory_laws = record {
    IsValid = IsValid;
    IsCommitted = IsRecorded;
    stays_valid = commit_batch-IsValid;
    stays_committed = contains-commit_batch;
    acknowledged = recorded;
    first_commit = unrecorded;
    retry = repeated;
    refusal = refused;
    no_limit = query_events_after-no_limit;
    events = query_events_after-events;
    latest_event = query_events_after-latest;
  }
