-- ===== src/Delivery/InMemory.antt =====
-- The queue of pending_batch_queue.cpp against in_memory_time_series_store.cpp.
use pulse_mesh.Base.{ℕ, ◌+◌, ◌≤◌, ◌≡◌, refl, List, [], ◌∷◌, none, arith, All, ok, length}
use pulse_mesh.Base.Double.{Double}
use pulse_mesh.Wire.{MetricBatch}
use pulse_mesh.PendingBatchQueue.{PendingBatch, size}
use pulse_mesh.TimeSeriesStore.{BatchCommitOutcome, Store, max_int64}
use pulse_mesh.TimeSeriesStore.Commit.{validate_batch, commit_batch, commit_metrics}
use pulse_mesh.TimeSeriesStore.Commit.Cases.{commit_cases}
use pulse_mesh.TimeSeriesStore.InMemory.{in_memory, in_memory_laws}
use pulse_mesh.Delivery.{Link, reconnects, happens}
use pulse_mesh.Delivery.Drain.{rounds, AcceptsAll, IsDrained, rounds-reconnect}

module _ {ℓ} {F : Type ℓ} ⦃d : Double F⦄ where
  abbrev metric_total : List (PendingBatch F) → ℕ
  metric_total [] = 0
  metric_total (e ∷ es) = length e.batch.metrics + metric_total es

  -- The batches are valid, and the store has event IDs for all of them.
  pub record IsDeliverable (es : List (PendingBatch F)) (s : Store F) : Type ℓ where
    pub valid : All (λ e. validate_batch e.batch ≡ none) es
    pub fits : s.current_event_id + metric_total es ≤ max_int64

  accepted :
      (b : MetricBatch F) (s : Store F)
      → validate_batch b ≡ none
      → s.current_event_id + length b.metrics ≤ max_int64
      → (o : BatchCommitOutcome) × ((commit_batch b s).0 ≡ ok o)
        × ((commit_batch b s).1.current_event_id ≤ s.current_event_id + length b.metrics)
  accepted b s h f =
      commit_cases
        (λ r.
          (o : BatchCommitOutcome) × (r.0 ≡ ok o)
          × (r.1.current_event_id ≤ s.current_event_id + length b.metrics))
        b s (λ e k. absurd (cc)) (λ k o. (_, refl, omega arith))
        (λ k o g. absurd (omega (arith, f, g)))
        (λ k o g. unfold commit_metrics in (_, refl, omega arith))

  accepts_all :
      (es : List (PendingBatch F)) (s : Store F)
      → All (λ e. validate_batch e.batch ≡ none) es
      → s.current_event_id + metric_total es ≤ max_int64
      → AcceptsAll in_memory es s
  accepts_all [] s v f = tt
  accepts_all (e ∷ es) s v f =
      let (o, answers, grown) = accepted e.batch s v.0 (omega arith) in
      (o, answers, accepts_all es (commit_batch e.batch s).1 v.1 (omega (arith, grown)))

  -- From a queue of valid batches, with event IDs left in the store for all of them: after a reset, and
  -- as many rounds as there are batches, in each of which the next batch is sent and its
  -- acknowledgement arrives, the queue is empty, and every batch's ID is recorded in the in-memory
  -- store, also if some had been committed before and their acknowledgements lost.
  pub rounds-reconnect_in_memory :
      (l : Link (in_memory {F = F}))
      → IsDeliverable l.queue.batches l.store
      → IsDrained in_memory_laws l.queue.batches (rounds (size l.queue) (happens reconnects l))
  rounds-reconnect_in_memory l v =
      rounds-reconnect in_memory_laws l (accepts_all l.queue.batches l.store v.valid v.fits)
