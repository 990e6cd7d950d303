-- ===== src/PendingBatchQueue/Contents.antt =====
-- What all batches in the queue of pending_batch_queue.cpp have in common stays common to them, since
-- the calls take batches out, put the given one in, and change none.
use pulse_mesh.Base.{
  subst, inl, inr, Bool, false, true, List, [], ◌∷◌, ◌++◌, map, none, some, Text, All, All-append,
  All-append_left, All-append_right, Bool-cases, ◌==◌, length, Option,
}
use pulse_mesh.Wire.{MetricBatch}
use pulse_mesh.PendingBatchQueue.{
  PendingBatch, Queue, has_id, is_invalid, set_in_flight, push_back, enqueue, enqueue_bounded,
  mark_next_in_flight, acknowledge, reset_in_flight,
}
use pulse_mesh.PendingBatchQueue.Entries.{find-Oldest, find-Identified}

module _ {ℓ κ} {F : Type ℓ} (P : MetricBatch F → Type κ) where
  -- Every batch of the entries has the property.
  abbrev pub Holds : List (PendingBatch F) → Type κ
  Holds = All λ e. P e.batch

  pub Holds-remove :
      (xs : List (PendingBatch F)) (e : PendingBatch F) (ys : List (PendingBatch F))
      → Holds (xs ++ e ∷ ys)
      → Holds (xs ++ ys)
  Holds-remove xs e ys a =
      All-append (λ e. P e.batch) xs ys (All-append_left _ xs (e ∷ ys) a)
        (All-append_right (λ e. P e.batch) xs (e ∷ ys) a).1

  pub Holds-push_back :
      (es : List (PendingBatch F)) (b : MetricBatch F) → Holds es → P b → Holds (push_back es b)
  Holds-push_back es b a p =
      All-append (λ e. P e.batch) es (record { batch = b; in_flight = false } ∷ []) a (p, tt)

  pub Holds-set_in_flight :
      (f : Bool) (xs : List (PendingBatch F)) (e : PendingBatch F) (ys : List (PendingBatch F))
      → Holds (xs ++ e ∷ ys)
      → Holds (xs ++ set_in_flight f e ∷ ys)
  Holds-set_in_flight f [] e ys a = a
  Holds-set_in_flight f (x ∷ xs) e ys a = (a.0, Holds-set_in_flight f xs e ys a.1)

  pub Holds-map : (es : List (PendingBatch F)) → Holds es → Holds (map (set_in_flight false) es)
  Holds-map [] a = tt
  Holds-map (e ∷ es) a = (a.0, Holds-map es a.1)

  enqueue_bounded-Holds :
      (b : MetricBatch F) (q : Queue F)
      → P b
      → Holds q.batches
      → Holds (enqueue_bounded b q).1.batches
  unfolding enqueue_bounded
  enqueue_bounded-Holds b q p a = elim (Bool-cases (length q.batches == q.capacity)) [
    | inr room ↦ rw room (Holds-push_back q.batches b a p)
    | inl full ↦ elim (find-Oldest q.batches) [
      | inl (_, e, _) ↦ rw (full, e) a
      | inr o ↦
          rw (full, o.erased)
            (Holds-push_back (o.before ++ o.after) b
              (Holds-remove o.before o.entry o.after (subst Holds o.splits a)) p)
    ]
  ]

  pub enqueue-Holds :
      (b : MetricBatch F) (q : Queue F) → P b → Holds q.batches → Holds (enqueue b q).1.batches
  unfolding enqueue
  enqueue-Holds b q p a = elim (Bool-cases (is_invalid b)) [
    | inl bad ↦ rw bad a
    | inr good ↦ elim (Bool-cases (has_id b.batch_id q.batches)) [
      | inl old ↦ rw (good, old) a
      | inr fresh ↦ rw (good, fresh) (enqueue_bounded-Holds b q p a)
    ]
  ]

  -- What is handed out is a batch of the queue.
  abbrev pub HoldsOf : Option (MetricBatch F) → Type κ
  HoldsOf none = Unit
  HoldsOf (some b) = P b

  pub mark_next_in_flight-Holds :
      (q : Queue F)
      → Holds q.batches
      → HoldsOf (mark_next_in_flight q).0 × Holds (mark_next_in_flight q).1.batches
  unfolding mark_next_in_flight
  mark_next_in_flight-Holds q a = elim (find-Oldest q.batches) [
    | inl (_, _, e) ↦ rw (e, mark_next_in_flight) (tt, a)
    | inr o ↦
        let b = subst Holds o.splits a in
        rw (o.marked, mark_next_in_flight)
          (
            (All-append_right (λ e. P e.batch) o.before (o.entry ∷ o.after) b).0,
            Holds-set_in_flight true o.before o.entry o.after b,
          )
  ]

  pub acknowledge-Holds :
      (id : Text) (q : Queue F) → Holds q.batches → Holds (acknowledge id q).1.batches
  unfolding acknowledge
  acknowledge-Holds id q a = elim (Bool-cases (has_id id q.batches)) [
    | inr miss ↦ rw miss a
    | inl hit ↦
        let o = find-Identified id q.batches hit in
        rw (hit, o.erased) (Holds-remove o.before o.entry o.after (subst Holds o.splits a))
  ]

  pub reset_in_flight-Holds : (q : Queue F) → Holds q.batches → Holds (reset_in_flight q).batches
  unfolding reset_in_flight
  reset_in_flight-Holds q a = Holds-map q.batches a
