-- ===== src/PendingBatchQueue/Invariant.antt =====
-- What holds of the queue of pending_batch_queue.cpp in every state that its calls can reach.
use pulse_mesh.Base.{
  ℕ, suc, ◌<◌, ◌≤◌, ◌≡◌, refl, subst, inl, inr, Bool, true, false, List, [], ◌∷◌, ◌++◌, map, ap,
  ◌∙◌, ◌==◌, arith, Text, length, length-append, All, Bool-cases,
}
use pulse_mesh.Wire.{MetricBatch}
use pulse_mesh.PendingBatchQueue.{
  PendingBatch, Queue, Call, enqueues, marks, acknowledges, resets, new, id_of, has_id, is_invalid,
  push_back, set_in_flight, enqueue, enqueue_bounded, mark_next_in_flight, acknowledge,
  reset_in_flight, step, run,
}
use pulse_mesh.PendingBatchQueue.Contents.{
  Holds-remove, Holds-push_back, Holds-set_in_flight, Holds-map,
}
use pulse_mesh.PendingBatchQueue.Entries.{
  find-Oldest, find-Identified, Distinct, Distinct-remove, Distinct-push, has_id-remove,
  has_id-set_in_flight, has_id-map,
}

module _ {ℓ} {F : Type ℓ} where
  abbrev pub IsAccepted : PendingBatch F → Type 0
  IsAccepted e = is_invalid e.batch ≡ false

  -- At most `capacity` entries, each a valid batch, with distinct batch IDs.
  pub record IsValid (q : Queue F) : Type ℓ where
    pub has_room : 0 < q.capacity
    pub bounded : length q.batches ≤ q.capacity
    pub distinct : Distinct q.batches
    pub accepted : All IsAccepted q.batches

  new-IsValid : (capacity : ℕ) → IsValid (new {F = F} capacity)
  unfolding new
  new-IsValid capacity = record {
    has_room = ground arith;
    bounded = ground arith;
    distinct = tt;
    accepted = tt;
  }

  push_back-IsValid :
      (q : Queue F) (b : MetricBatch F) (es : List (PendingBatch F)) (n : ℕ)
      → is_invalid b ≡ false
      → has_id b.batch_id es ≡ false
      → 0 < q.capacity
      → length es < q.capacity
      → Distinct es
      → All IsAccepted es
      → IsValid (record q { batches = push_back es b; dropped_batches = n })
  push_back-IsValid q b es n ok_batch fresh room short d a = record {
    has_room = room;
    bounded = omega (arith, length-append es (record { batch = b; in_flight = false } ∷ []));
    distinct = Distinct-push es (record { batch = b; in_flight = false }) d fresh;
    accepted = Holds-push_back (λ b. is_invalid b ≡ false) es b a ok_batch;
  }

  length-remove :
      (xs : List (PendingBatch F)) (e : PendingBatch F) (ys : List (PendingBatch F))
      → length (xs ++ e ∷ ys) ≡ suc (length (xs ++ ys))
  length-remove [] e ys = refl
  length-remove (x ∷ xs) e ys = omega (arith, length-remove xs e ys)

  enqueue_bounded-IsValid :
      (b : MetricBatch F) (q : Queue F)
      → is_invalid b ≡ false
      → has_id b.batch_id q.batches ≡ false
      → IsValid q
      → IsValid (enqueue_bounded b q).1
  unfolding enqueue_bounded
  enqueue_bounded-IsValid b q ok_batch fresh v =
      elim (Bool-cases (length q.batches == q.capacity)) [
        | inr room ↦ rw room (
            push_back-IsValid q b q.batches q.dropped_batches ok_batch fresh v.has_room
              (let bound = v.bounded in ground arith) v.distinct v.accepted)
        | inl full ↦ elim (find-Oldest q.batches) [
          | inl (_, e, _) ↦
              rw (full, e)
                (record {
                  has_room = v.has_room;
                  bounded = v.bounded;
                  distinct = v.distinct;
                  accepted = v.accepted;
                })
          | inr o ↦
              rw (full, o.erased)
                (push_back-IsValid q b (o.before ++ o.after) _ ok_batch
                  (has_id-remove b.batch_id o.before o.entry o.after
                    (subst (λ es. has_id b.batch_id es ≡ false) o.splits fresh))
                  v.has_room
                  (omega
                    (arith, v.bounded, ap length o.splits, length-remove o.before o.entry o.after))
                  (Distinct-remove o.before o.entry o.after (subst Distinct o.splits v.distinct))
                  (Holds-remove (λ b. is_invalid b ≡ false) o.before o.entry o.after
                    (subst (All IsAccepted) o.splits v.accepted)))
        ]
      ]

  enqueue-IsValid : (b : MetricBatch F) (q : Queue F) → IsValid q → IsValid (enqueue b q).1
  unfolding enqueue
  enqueue-IsValid b q v = elim (Bool-cases (is_invalid b)) [
    | inl bad ↦ rw bad v
    | inr good ↦ elim (Bool-cases (has_id b.batch_id q.batches)) [
      | inl old ↦ rw (good, old) v
      | inr fresh ↦ rw (good, fresh) (enqueue_bounded-IsValid b q good fresh v)
    ]
  ]

  length-set_in_flight :
      (f : Bool) (xs : List (PendingBatch F)) (e : PendingBatch F) (ys : List (PendingBatch F))
      → length (xs ++ set_in_flight f e ∷ ys) ≡ length (xs ++ e ∷ ys)
  length-set_in_flight f [] e ys = refl
  length-set_in_flight f (x ∷ xs) e ys = omega (arith, length-set_in_flight f xs e ys)

  Distinct-set_in_flight :
      (f : Bool) (xs : List (PendingBatch F)) (e : PendingBatch F) (ys : List (PendingBatch F))
      → Distinct (xs ++ e ∷ ys)
      → Distinct (xs ++ set_in_flight f e ∷ ys)
  Distinct-set_in_flight f [] e ys d = d
  Distinct-set_in_flight f (x ∷ xs) e ys d =
      (has_id-set_in_flight (id_of x) f xs e ys ∙ d.0, Distinct-set_in_flight f xs e ys d.1)

  mark_next_in_flight-IsValid : (q : Queue F) → IsValid q → IsValid (mark_next_in_flight q).1
  unfolding mark_next_in_flight
  mark_next_in_flight-IsValid q v = elim (find-Oldest q.batches) [
    | inl (_, _, e) ↦ rw (e, mark_next_in_flight) v
    | inr o ↦
        rw (o.marked, mark_next_in_flight)
          (record {
            has_room = v.has_room;
            bounded = omega (
              arith,
              v.bounded,
              ap length o.splits,
              length-set_in_flight true o.before o.entry o.after,
            );
            distinct =
                Distinct-set_in_flight true o.before o.entry o.after
                  (subst Distinct o.splits v.distinct);
            accepted =
                Holds-set_in_flight (λ b. is_invalid b ≡ false) true o.before o.entry o.after
                  (subst (All IsAccepted) o.splits v.accepted);
          })
  ]

  acknowledge-IsValid : (id : Text) (q : Queue F) → IsValid q → IsValid (acknowledge id q).1
  unfolding acknowledge
  acknowledge-IsValid id q v = elim (Bool-cases (has_id id q.batches)) [
    | inr miss ↦ rw miss v
    | inl hit ↦
        let o = find-Identified id q.batches hit in
        rw (hit, o.erased)
          (record {
            has_room = v.has_room;
            bounded =
                omega
                  (arith, v.bounded, ap length o.splits, length-remove o.before o.entry o.after);
            distinct =
                Distinct-remove o.before o.entry o.after (subst Distinct o.splits v.distinct);
            accepted =
                Holds-remove (λ b. is_invalid b ≡ false) o.before o.entry o.after
                  (subst (All IsAccepted) o.splits v.accepted);
          })
  ]

  length-map : (es : List (PendingBatch F)) → length (map (set_in_flight false) es) ≡ length es
  length-map [] = refl
  length-map (e ∷ es) = omega (arith, length-map es)

  Distinct-map :
      (es : List (PendingBatch F)) → Distinct es → Distinct (map (set_in_flight false) es)
  Distinct-map [] d = tt
  Distinct-map (e ∷ es) d = (has_id-map (id_of e) false es ∙ d.0, Distinct-map es d.1)

  reset_in_flight-IsValid : (q : Queue F) → IsValid q → IsValid (reset_in_flight q)
  unfolding reset_in_flight
  reset_in_flight-IsValid q v = record {
    has_room = v.has_room;
    bounded = omega (arith, v.bounded, length-map q.batches);
    distinct = Distinct-map q.batches v.distinct;
    accepted = Holds-map (λ b. is_invalid b ≡ false) q.batches v.accepted;
  }

  -- Every call keeps the queue valid.
  pub step-IsValid : (q : Queue F) (c : Call F) → IsValid q → IsValid (step q c)
  unfolding step
  step-IsValid q (enqueues b) v = enqueue-IsValid b q v
  step-IsValid q marks v = mark_next_in_flight-IsValid q v
  step-IsValid q (acknowledges id) v = acknowledge-IsValid id q v
  step-IsValid q resets v = reset_in_flight-IsValid q v

  pub run-IsValid : (q : Queue F) (cs : List (Call F)) → IsValid q → IsValid (run q cs)
  unfolding run
  run-IsValid q [] v = v
  run-IsValid q (c ∷ cs) v = run-IsValid (step q c) cs (step-IsValid q c v)

  -- After any sequence of calls on a new queue, whatever capacity it was given, the queue holds at
  -- most its capacity of entries, the capacity is not zero, no two entries have the same batch ID,
  -- and each entry has a client ID, a batch ID and a metric.
  pub run-new-IsValid : (capacity : ℕ) (cs : List (Call F)) → IsValid (run (new capacity) cs)
  run-new-IsValid capacity cs = run-IsValid (new capacity) cs (new-IsValid capacity)
