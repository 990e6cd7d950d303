-- ===== src/PendingBatchQueue/Kept.antt =====
-- Which entries of pending_batch_queue.cpp stay in the queue over its calls, and which leave it.
use pulse_mesh.Base.{
  ◌≡◌, ◌≢◌, ◌↔◌, refl, sym, subst, ap, ◌∙◌, inl, inr, true, false, List, [], ◌∷◌, ◌++◌, arith, Text,
  text_eq_iff, ◌==◌, length, All, Bool-cases,
}
use pulse_mesh.Wire.{MetricBatch}
use pulse_mesh.PendingBatchQueue.{
  PendingBatch, Queue, Call, enqueues, marks, acknowledges, resets, id_of, has_id, is_invalid,
  set_in_flight, enqueue, enqueue_bounded, mark_next_in_flight, acknowledge, step, run,
}
use pulse_mesh.PendingBatchQueue.Entries.{
  find-Oldest, find-Identified, has_id-remove_self, Distinct,
}
use pulse_mesh.PendingBatchQueue.Invariant.{IsValid}

-- The entry is in the list.
pub data Within {ℓ} {F : Type ℓ} (e : PendingBatch F) : List (PendingBatch F) → Type ℓ where
  here : {x : PendingBatch F} {xs : List (PendingBatch F)} → x ≡ e → Within e (x ∷ xs)
  there : {x : PendingBatch F} {xs : List (PendingBatch F)} → Within e xs → Within e (x ∷ xs)

module _ {ℓ} {F : Type ℓ} (e : PendingBatch F) where
  Within-append : (xs ys : List (PendingBatch F)) → Within e xs → Within e (xs ++ ys)
  Within-append [] ys w = elim w [ ]
  Within-append (x ∷ xs) ys (here h) = here h
  Within-append (x ∷ xs) ys (there w) = there (Within-append xs ys w)

  Within-remove :
      (xs : List (PendingBatch F)) (y : PendingBatch F) (ys : List (PendingBatch F))
      → y ≢ e
      → Within e (xs ++ y ∷ ys)
      → Within e (xs ++ ys)
  Within-remove [] y ys n (here h) = absurd (n h)
  Within-remove [] y ys n (there w) = w
  Within-remove (x ∷ xs) y ys n (here h) = here h
  Within-remove (x ∷ xs) y ys n (there w) = there (Within-remove xs y ys n w)

  Within-add :
      (xs : List (PendingBatch F)) (y : PendingBatch F) (ys : List (PendingBatch F))
      → Within e (xs ++ ys)
      → Within e (xs ++ y ∷ ys)
  Within-add [] y ys w = there w
  Within-add (x ∷ xs) y ys (here h) = here h
  Within-add (x ∷ xs) y ys (there w) = there (Within-add xs y ys w)

  has_id-Within : (xs : List (PendingBatch F)) → Within e xs → has_id (id_of e) xs ≡ true
  unfolding has_id
  has_id-Within [] w = elim w [ ]
  has_id-Within (x ∷ xs) (here h) =
      ground (arith, text_eq_iff (id_of x) (id_of e), ap (λ y. id_of y) h)
  has_id-Within (x ∷ xs) (there w) = ground (arith, has_id-Within xs w)

  -- The calls after which an entry in flight must still be there.
  abbrev pub Spares : Call F → Type 0
  Spares (enqueues b) = Unit
  Spares marks = Unit
  Spares (acknowledges id) = id ≢ id_of e
  Spares resets = ⊥

  enqueue_bounded-Within :
      (b : MetricBatch F) (q : Queue F)
      → e.in_flight ≡ true
      → Within e q.batches
      → Within e (enqueue_bounded b q).1.batches
  unfolding enqueue_bounded
  enqueue_bounded-Within b q f w = elim (Bool-cases (length q.batches == q.capacity)) [
    | inr room ↦ rw room (Within-append q.batches (record { batch = b; in_flight = false } ∷ []) w)
    | inl full ↦ elim (find-Oldest q.batches) [
      | inl (_, gone, _) ↦ rw (full, gone) w
      | inr o ↦
          rw (full, o.erased)
            (Within-append (o.before ++ o.after) (record { batch = b; in_flight = false } ∷ []) (
              Within-remove o.before o.entry o.after
                (λ h. let p = o.pending in let g = ap (λ x. x.in_flight) h in cc)
                (subst (Within e) o.splits w)))
    ]
  ]

  mark-Within :
      (q : Queue F)
      → e.in_flight ≡ true
      → Within e q.batches
      → Within e (mark_next_in_flight q).1.batches
  unfolding mark_next_in_flight
  mark-Within q f w = elim (find-Oldest q.batches) [
    | inl (_, _, m) ↦ rw (m, mark_next_in_flight) w
    | inr o ↦
        rw (o.marked, mark_next_in_flight)
          (Within-add o.before (set_in_flight true o.entry) o.after (
            Within-remove o.before o.entry o.after
              (λ h. let p = o.pending in let g = ap (λ x. x.in_flight) h in cc)
              (subst (Within e) o.splits w)))
  ]

  acknowledge-Within :
      (id : Text) (q : Queue F)
      → id ≢ id_of e
      → Within e q.batches
      → Within e (acknowledge id q).1.batches
  unfolding acknowledge
  acknowledge-Within id q n w = elim (Bool-cases (has_id id q.batches)) [
    | inr miss ↦ rw miss w
    | inl hit ↦
        let o = find-Identified id q.batches hit in
        rw (hit, o.erased)
          (Within-remove o.before o.entry o.after (λ h. n (sym o.matches ∙ ap (λ x. id_of x) h))
            (subst (Within e) o.splits w))
  ]

  enqueue-Within :
      (b : MetricBatch F) (q : Queue F)
      → e.in_flight ≡ true
      → Within e q.batches
      → Within e (enqueue b q).1.batches
  unfolding enqueue
  enqueue-Within b q f w = elim (Bool-cases (is_invalid b)) [
    | inl bad ↦ rw bad w
    | inr good ↦ elim (Bool-cases (has_id b.batch_id q.batches)) [
      | inl old ↦ rw (good, old) w
      | inr fresh ↦ rw (good, fresh) (enqueue_bounded-Within b q f w)
    ]
  ]

  step-Within :
      (q : Queue F) (c : Call F)
      → e.in_flight ≡ true
      → Spares c
      → Within e q.batches
      → Within e (step q c).batches
  unfolding step
  step-Within q (enqueues b) f s w = enqueue-Within b q f w
  step-Within q marks f s w = mark-Within q f w
  step-Within q (acknowledges id) f s w = acknowledge-Within id q s w
  step-Within q resets f s w = absurd s

  -- A batch in flight is still there, unchanged and in flight, after any calls that neither
  -- acknowledge its ID nor reset the queue, and its acknowledgement still succeeds.
  pub run-Within :
      (q : Queue F) (cs : List (Call F))
      → e.in_flight ≡ true
      → Within e q.batches
      → All Spares cs
      → Within e (run q cs).batches × ((acknowledge (id_of e) (run q cs)).0 ≡ true)
  unfolding run acknowledge
  run-Within q [] f w s = (w, rw (has_id-Within q.batches w))
  run-Within q (c ∷ cs) f w s = run-Within (step q c) cs f (step-Within q c f s.0 w) s.1

module _ {ℓ} {F : Type ℓ} where
  -- In a queue with distinct batch IDs, as every sequence of calls leaves it, an acknowledgement says
  -- whether its ID is in the queue, and afterwards it is not; every entry with another ID is in the
  -- queue exactly if it was before.
  pub acknowledge_exact :
      (id : Text) (q : Queue F)
      → IsValid q
      → ((acknowledge id q).0 ≡ has_id id q.batches)
        × (has_id id (acknowledge id q).1.batches ≡ false)
        × ((e : PendingBatch F)
            → id ≢ id_of e
            → Within e q.batches ↔ Within e (acknowledge id q).1.batches)
  unfolding acknowledge
  acknowledge_exact id q v = elim (Bool-cases (has_id id q.batches)) [
    | inr miss ↦ rw miss (refl, miss, λ e n. (λ w. w, λ w. w))
    | inl hit ↦
        let o = find-Identified id q.batches hit in
        rw (hit, o.erased)
          (
            refl,
            subst (λ i. has_id i (o.before ++ o.after) ≡ false) o.matches
                (has_id-remove_self o.before o.entry o.after (subst Distinct o.splits v.distinct)),
            λ e n. (
              λ w.
                  Within-remove e o.before o.entry o.after
                    (λ h. n (sym o.matches ∙ ap (λ x. id_of x) h)) (subst (Within e) o.splits w),
              λ w. subst (Within e) (sym o.splits) (Within-add e o.before o.entry o.after w),
            ),
          )
  ]
