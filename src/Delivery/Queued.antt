-- ===== src/Delivery/Queued.antt =====
-- Which batch IDs the calls of pending_batch_queue.cpp leave in the queue.
use pulse_mesh.Base.{
  ◌≡◌, ◌≢◌, refl, sym, ap, subst, ◌∙◌, inl, inr, true, false, Text, [], ◌∷◌, ◌++◌, arith, text_eq,
  Bool-cases, ◌==◌, length,
}
use pulse_mesh.Wire.{MetricBatch}
use pulse_mesh.PendingBatchQueue.{
  dropped_oldest, Queue, id_of, has_id, is_invalid, enqueue, enqueue_bounded, mark_next_in_flight,
  acknowledge,
}
use pulse_mesh.PendingBatchQueue.Entries.{
  find-Oldest, find-Identified, has_id-append, has_id-set_in_flight,
}

module _ {ℓ} {F : Type ℓ} where
  -- No batch in the queue is given up for the new one.
  abbrev pub DropsNone : MetricBatch F → Queue F → Type 0
  DropsNone b q = (enqueue b q).0 ≢ dropped_oldest

  has_id-enqueue_bounded :
      (id : Text) (b : MetricBatch F) (q : Queue F)
      → (enqueue_bounded b q).0 ≢ dropped_oldest
      → has_id id q.batches ≡ true
      → has_id id (enqueue_bounded b q).1.batches ≡ true
  unfolding enqueue_bounded
  has_id-enqueue_bounded id b q n h = elim (Bool-cases (length q.batches == q.capacity)) [
    | inr room ↦
        rw (room, has_id-append id q.batches (record { batch = b; in_flight = false } ∷ []), h) refl
    | inl full ↦ elim (find-Oldest q.batches) [
      | inl (_, gone, _) ↦ rw (full, gone) h
      | inr o ↦ absurd (n (rw (full, o.erased) refl))
    ]
  ]

  pub has_id-enqueue :
      (id : Text) (b : MetricBatch F) (q : Queue F)
      → DropsNone b q
      → has_id id q.batches ≡ true
      → has_id id (enqueue b q).1.batches ≡ true
  unfolding enqueue
  has_id-enqueue id b q n h = elim (Bool-cases (is_invalid b)) [
    | inl bad ↦ rw bad h
    | inr good ↦ elim (Bool-cases (has_id b.batch_id q.batches)) [
      | inl old ↦ rw (good, old) h
      | inr fresh ↦
          let e : enqueue b q ≡ enqueue_bounded b q = rw (good, fresh) refl in
          rw (good, fresh) (has_id-enqueue_bounded id b q (subst (λ r. r.0 ≢ dropped_oldest) e n) h)
    ]
  ]

  pub has_id-mark :
      (id : Text) (q : Queue F) → has_id id (mark_next_in_flight q).1.batches ≡ has_id id q.batches
  unfolding mark_next_in_flight
  has_id-mark id q = elim (find-Oldest q.batches) [
    | inl (_, _, m) ↦ rw (m, mark_next_in_flight) refl
    | inr o ↦
        rw (o.marked, mark_next_in_flight)
          (has_id-set_in_flight id true o.before o.entry o.after ∙ ap (has_id id) (sym o.splits))
  ]

  pub has_id-acknowledge :
      (id other : Text) (q : Queue F)
      → text_eq other id ≡ false
      → has_id id q.batches ≡ true
      → has_id id (acknowledge other q).1.batches ≡ true
  unfolding acknowledge has_id
  has_id-acknowledge id other q n h = elim (Bool-cases (has_id other q.batches)) [
    | inr miss ↦ rw miss h
    | inl hit ↦
        let o = find-Identified other q.batches hit in
        let m : text_eq (id_of o.entry) id ≡ false =
          subst (λ t. text_eq t id ≡ false) (sym o.matches) n in
        let w : has_id id (o.before ++ o.entry ∷ o.after) ≡ true =
          subst (λ es. has_id id es ≡ true) o.splits h in
        rw (hit, o.erased)
          (ground (
            arith,
            has_id-append id o.before (o.entry ∷ o.after),
            has_id-append id o.before o.after,
          ))
  ]
