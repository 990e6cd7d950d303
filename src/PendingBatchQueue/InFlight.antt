-- ===== src/PendingBatchQueue/InFlight.antt =====
-- What pending_batch_queue.cpp promises for a batch that was handed out and may still be
-- acknowledged, and for the retries after a lost stream.
use pulse_mesh.Base.{
  Text, text_eq_iff, is_empty, ◌≡◌, ◌≢◌, refl, sym, ap, ◌∙◌, inl, inr, true, false, not, List, [],
  ◌∷◌, ◌++◌, arith, ◌==◌, length, keep, All, Bool-cases,
}
use pulse_mesh.Wire.{MetricBatch}
use pulse_mesh.PendingBatchQueue.{
  EnqueueResult, enqueued, dropped_oldest, rejected_all_in_flight, invalid_batch, duplicate_batch,
  PendingBatch, Queue, id_of, has_id, is_invalid, push_back, count_drop, enqueue, enqueue_bounded,
}
use pulse_mesh.PendingBatchQueue.Entries.{IsInFlight, find-Oldest}

is_empty-nil {ℓ} : {A : Type ℓ} (xs : List A) → is_empty xs ≡ true → xs ≡ []
is_empty-nil [] h = refl
is_empty-nil (x ∷ xs) h = cc

module _ {ℓ} {F : Type ℓ} where
  -- The entries that were handed out, and those that wait, oldest first.
  abbrev pub sent : List (PendingBatch F) → List (PendingBatch F)
  sent = keep λ e. e.in_flight

  abbrev pub waiting : List (PendingBatch F) → List (PendingBatch F)
  waiting = keep λ e. not e.in_flight

  sent-push_back :
      (es : List (PendingBatch F)) (b : MetricBatch F) → sent (push_back es b) ≡ sent es
  sent-push_back [] b = refl
  sent-push_back (e ∷ es) b = ground (arith, sent-push_back es b)

  waiting-push_back :
      (es : List (PendingBatch F)) (b : MetricBatch F)
      → waiting (push_back es b) ≡ push_back (waiting es) b
  waiting-push_back [] b = refl
  waiting-push_back (e ∷ es) b = ground (arith, waiting-push_back es b)

  sent-remove :
      (xs : List (PendingBatch F)) (e : PendingBatch F) (ys : List (PendingBatch F))
      → e.in_flight ≡ false
      → sent (xs ++ e ∷ ys) ≡ sent (xs ++ ys)
  sent-remove [] e ys f = rw f
  sent-remove (x ∷ xs) e ys f = ground (arith, sent-remove xs e ys f)

  waiting-after :
      (xs ys : List (PendingBatch F)) → All IsInFlight xs → waiting (xs ++ ys) ≡ waiting ys
  waiting-after [] ys a = refl
  waiting-after (x ∷ xs) ys a = rw a.0 (waiting-after xs ys a.1)

  waiting-none : (xs : List (PendingBatch F)) → All IsInFlight xs → waiting xs ≡ []
  waiting-none [] a = refl
  waiting-none (x ∷ xs) a = rw a.0 (waiting-none xs a.1)

  -- A batch with a client ID, a batch ID and metrics.
  pub record IsComplete (b : MetricBatch F) : Type ℓ where
    pub client_id : b.client_id ≢ []
    pub batch_id : b.batch_id ≢ []
    pub metrics : b.metrics ≢ []

  -- No entry has the batch ID.
  abbrev pub IsFresh : Text → List (PendingBatch F) → Type 0
  IsFresh id = All λ e. id_of e ≢ id

  -- What a caller of `enqueue` learns from each result.
  abbrev pub Effect : MetricBatch F → Queue F → EnqueueResult × Queue F → Type ℓ
  Effect b q (enqueued, t) =
      IsComplete b
      × IsFresh b.batch_id q.batches
      × (length q.batches ≢ q.capacity)
      × (sent t.batches ≡ sent q.batches)
      × (waiting t.batches ≡ push_back (waiting q.batches) b)
      × (t.dropped_batches ≡ q.dropped_batches)
  Effect b q (dropped_oldest, t) =
      IsComplete b
      × IsFresh b.batch_id q.batches
      × (length q.batches ≡ q.capacity)
      × (sent t.batches ≡ sent q.batches)
      × ((e : PendingBatch F) × (rest : List (PendingBatch F)) × (waiting q.batches ≡ e ∷ rest)
          × (waiting t.batches ≡ push_back rest b))
      × (t.dropped_batches ≡ count_drop q.dropped_batches)
  Effect b q (rejected_all_in_flight, t) =
      IsComplete b
      × IsFresh b.batch_id q.batches
      × (length q.batches ≡ q.capacity)
      × (waiting q.batches ≡ [])
      × (t.batches ≡ q.batches)
      × (t.dropped_batches ≡ count_drop q.dropped_batches)
  Effect b q (invalid_batch, t) = (¬ IsComplete b) × (t ≡ q)
  Effect b q (duplicate_batch, t) = IsComplete b × (¬ IsFresh b.batch_id q.batches) × (t ≡ q)

  is_invalid-IsComplete : (b : MetricBatch F) → is_invalid b ≡ false → IsComplete b
  is_invalid-IsComplete b h = record {
    client_id = λ e. let k = rw e at h in cc;
    batch_id = λ e. let k = rw e at h in ground arith;
    metrics = λ e. let k = rw e at h in ground arith;
  }

  not-IsComplete : (b : MetricBatch F) → is_invalid b ≡ true → ¬ IsComplete b
  not-IsComplete b h c = elim (Bool-cases (is_empty b.client_id)) [
    | inl e ↦ c.client_id (is_empty-nil b.client_id e)
    | inr m ↦ elim (Bool-cases (is_empty b.batch_id)) [
      | inl e ↦ c.batch_id (is_empty-nil b.batch_id e)
      | inr n ↦ c.metrics (is_empty-nil b.metrics (rw (m, n) at h))
    ]
  ]

  has_id-IsFresh : (id : Text) (es : List (PendingBatch F)) → has_id id es ≡ false → IsFresh id es
  unfolding has_id
  has_id-IsFresh id [] h = tt
  has_id-IsFresh id (e ∷ es) h = ground (arith, text_eq_iff (id_of e) id, has_id-IsFresh id es)

  not-IsFresh : (id : Text) (es : List (PendingBatch F)) → has_id id es ≡ true → ¬ IsFresh id es
  unfolding has_id
  not-IsFresh id [] h f = cc
  not-IsFresh id (e ∷ es) h f = ground (arith, text_eq_iff (id_of e) id, not-IsFresh id es)

  enqueue_bounded-Effect :
      (b : MetricBatch F) (q : Queue F)
      → IsComplete b
      → IsFresh b.batch_id q.batches
      → Effect b q (enqueue_bounded b q)
  unfolding enqueue_bounded
  enqueue_bounded-Effect b q c f = elim (Bool-cases (length q.batches == q.capacity)) [
    | inr room ↦
        rw room
          (c, f, ground arith, sent-push_back q.batches b, waiting-push_back q.batches b, refl)
    | inl full ↦ elim (find-Oldest q.batches) [
      | inl (all, e, _) ↦ rw (full, e) (c, f, ground arith, waiting-none q.batches all, refl, refl)
      | inr o ↦
          rw (full, o.erased)
            (
              c,
              f,
              ground arith,
              sent-push_back (o.before ++ o.after) b
                  ∙ sym (sent-remove o.before o.entry o.after o.pending)
                  ∙ ap sent (sym o.splits),
              (
                o.entry,
                waiting o.after,
                ap waiting o.splits
                    ∙ waiting-after o.before (o.entry ∷ o.after) o.in_flight_before
                    ∙ rw o.pending,
                waiting-push_back (o.before ++ o.after) b
                    ∙ ap (λ es. push_back es b) (waiting-after o.before o.after o.in_flight_before),
              ),
              refl,
            )
    ]
  ]

  -- `enqueue` answers exactly as its result says, and the batches in flight stay as they are. An
  -- accepted batch goes behind the waiting ones, and a full queue gives up the oldest waiting batch
  -- for it and counts it. With none waiting, the new batch is refused and counted. In these cases the
  -- batch has a client ID, a batch ID and metrics, and its ID is not in the queue. The answer that it
  -- is not valid is given only where one of the three is missing, the answer that it is a duplicate
  -- only where its ID is in the queue, and both leave the queue as it was.
  pub enqueue-Effect : (b : MetricBatch F) (q : Queue F) → Effect b q (enqueue b q)
  unfolding enqueue
  enqueue-Effect b q = elim (Bool-cases (is_invalid b)) [
    | inl bad ↦ rw bad (not-IsComplete b bad, refl)
    | inr good ↦ elim (Bool-cases (has_id b.batch_id q.batches)) [
      | inl old ↦
          rw (good, old) (is_invalid-IsComplete b good, not-IsFresh b.batch_id q.batches old, refl)
      | inr fresh ↦
          rw (good, fresh)
            (enqueue_bounded-Effect b q (is_invalid-IsComplete b good)
              (has_id-IsFresh b.batch_id q.batches fresh))
    ]
  ]
