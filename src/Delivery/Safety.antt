-- ===== src/Delivery/Safety.antt =====
-- What pending_batch_queue.cpp and a store behind i_time_series_store.h keep together: a batch that left
-- the queue for an acknowledgement is committed.
use pulse_mesh.Base.{
  ◌≡◌, refl, subst, ◌∙◌, ◌⊎◌, inl, inr, true, false, Text, List, [], ◌∷◌, arith, text_eq,
  text_eq_iff, Bool-cases, Option-cases, Expected-cases,
}
use pulse_mesh.Wire.{MetricBatch}
use pulse_mesh.PendingBatchQueue.{Queue, has_id, mark_next_in_flight, acknowledge, reset_in_flight}
use pulse_mesh.PendingBatchQueue.Entries.{has_id-map}
use pulse_mesh.TimeSeriesStore.Interface.{ITimeSeriesStore, IsTimeSeriesStore}
use pulse_mesh.Delivery.{
  Link, Event, queues, sends, loses, reconnects, arrives, commits, configures, acknowledges,
  deliver, happens, happen,
}
use pulse_mesh.Delivery.Queued.{DropsNone, has_id-enqueue, has_id-mark, has_id-acknowledge}

module _ {ℓ} {F : Type ℓ} {i : ITimeSeriesStore F} where
  -- An event that gives up no batch of the queue for a new one.
  abbrev pub DropsNothing : Event F → Link i → Type 0
  DropsNothing (queues b) l = DropsNone b l.queue
  DropsNothing _ l = Unit

  -- None of the events gives up a batch of the queue.
  abbrev pub DropsNothingOf : List (Event F) → Link i → Type 0
  DropsNothingOf [] l = Unit
  DropsNothingOf (e ∷ es) l = DropsNothing e l × DropsNothingOf es (happens e l)

  pub deliver_parts :
      (b : MetricBatch F) (l : Link i)
      → ((deliver b l).queue ≡ l.queue) × ((deliver b l).store ≡ (i.commit_batch b l.store).1)
  unfolding deliver
  deliver_parts b l = elim (Expected-cases (i.commit_batch b l.store).0) [
    | inl (e, r) ↦ rw (r, deliver) (refl, refl)
    | inr (o, r) ↦ rw (r, deliver) (refl, refl)
  ]

module _ {ℓ} {F : Type ℓ} {i : ITimeSeriesStore F} (laws : IsTimeSeriesStore i) where
  -- Every acknowledged batch ID is committed.
  abbrev pub IsHonest : Link i → Type 0
  IsHonest l = (id : Text) → acknowledges l.responses id ≡ true → laws.IsCommitted id l.store

  deliver-IsHonest : (b : MetricBatch F) (l : Link i) → IsHonest l → IsHonest (deliver b l)
  unfolding deliver acknowledges
  deliver-IsHonest b l h id = elim (Expected-cases (i.commit_batch b l.store).0) [
    | inl (e, r) ↦ rw (r, deliver) (λ k. laws.stays_committed id b l.store (h id k))
    | inr (o, r) ↦
        rw (r, deliver)
          (λ k. elim (Bool-cases (text_eq b.batch_id id)) [
            | inl same ↦
                subst (λ j. laws.IsCommitted j (i.commit_batch b l.store).1)
                  ((text_eq_iff b.batch_id id).0 same) (laws.acknowledged b l.store o r)
            | inr other ↦ laws.stays_committed id b l.store (h id (ground arith))
          ])
  ]

  happens-IsHonest : (e : Event F) (l : Link i) → IsHonest l → IsHonest (happens e l)
  unfolding happens acknowledges
  happens-IsHonest (queues b) l h = h
  happens-IsHonest sends l h = elim (Option-cases (mark_next_in_flight l.queue).0) [
    | inl e ↦ rw (e, happens) h
    | inr (b, e) ↦
        rw (e, happens)
          (deliver-IsHonest b (record l { queue = (mark_next_in_flight l.queue).1 }) h)
  ]
  happens-IsHonest loses l h = h
  happens-IsHonest reconnects l h = h
  happens-IsHonest (arrives id) l h = elim (Bool-cases (acknowledges l.responses id)) [
    | inl e ↦ rw e h
    | inr e ↦ rw e h
  ]
  happens-IsHonest (configures c) l h = h
  happens-IsHonest (commits b) l h = λ id k. laws.stays_committed id b l.store (h id k)

  -- What is committed stays committed.
  pub happens-IsCommitted :
      (id : Text) (e : Event F) (l : Link i)
      → laws.IsCommitted id l.store
      → laws.IsCommitted id (happens e l).store
  unfolding happens
  happens-IsCommitted id (queues b) l h = h
  happens-IsCommitted id sends l h = elim (Option-cases (mark_next_in_flight l.queue).0) [
    | inl e ↦ rw (e, happens) h
    | inr (b, e) ↦
        let (same, next) = deliver_parts b (record l { queue = (mark_next_in_flight l.queue).1 }) in
        rw (e, happens, next) (laws.stays_committed id b l.store h)
  ]
  happens-IsCommitted id loses l h = h
  happens-IsCommitted id reconnects l h = h
  happens-IsCommitted id (arrives other) l h = elim (Bool-cases (acknowledges l.responses other)) [
    | inl e ↦ rw e h
    | inr e ↦ rw e h
  ]
  happens-IsCommitted id (configures c) l h = h
  happens-IsCommitted id (commits b) l h = laws.stays_committed id b l.store h

  -- The batch ID is in the queue or committed.
  abbrev pub IsSafe : Text → Link i → Type 0
  IsSafe id l = (has_id id l.queue.batches ≡ true) ⊎ (laws.IsCommitted id l.store)

  IsSafe-commit_batch :
      (id : Text) (b : MetricBatch F) (l : Link i) (q : Queue F)
      → has_id id q.batches ≡ has_id id l.queue.batches
      → IsSafe id l
      → IsSafe id (record l { queue = q; store = (i.commit_batch b l.store).1 })
  IsSafe-commit_batch id b l q e (inl h) = inl (e ∙ h)
  IsSafe-commit_batch id b l q e (inr h) = inr (laws.stays_committed id b l.store h)

  acknowledged-IsSafe :
      (id other : Text) (l : Link i)
      → IsHonest l
      → acknowledges l.responses other ≡ true
      → has_id id l.queue.batches ≡ true
      → IsSafe id (record l { queue = (acknowledge other l.queue).1 })
  acknowledged-IsSafe id other l v k h = elim (Bool-cases (text_eq other id)) [
    | inr n ↦ inl (has_id-acknowledge id other l.queue n h)
    | inl same ↦
        inr (subst (λ j. laws.IsCommitted j l.store) ((text_eq_iff other id).0 same) (v other k))
  ]

  happens-IsSafe :
      (id : Text) (e : Event F) (l : Link i)
      → DropsNothing e l
      → IsHonest l
      → IsSafe id l
      → IsSafe id (happens e l)
  unfolding happens reset_in_flight
  happens-IsSafe id (queues b) l n v (inl h) = inl (has_id-enqueue id b l.queue n h)
  happens-IsSafe id (queues b) l n v (inr h) = inr h
  happens-IsSafe id sends l n v h =
      let q = (mark_next_in_flight l.queue).1 in
      elim (Option-cases (mark_next_in_flight l.queue).0) [
        | inl e ↦ rw (e, happens) (in_queue q (has_id-mark id l.queue) h)
        | inr (b, e) ↦
            let (same, next) = deliver_parts b (record l { queue = q }) in
            rw (e, happens, same, next) (IsSafe-commit_batch id b l q (has_id-mark id l.queue) h)
      ]
    where
      in_queue :
          (q : Queue F)
          → has_id id q.batches ≡ has_id id l.queue.batches
          → IsSafe id l
          → IsSafe id (record l { queue = q })
      in_queue q e (inl h) = inl (e ∙ h)
      in_queue q e (inr h) = inr h
  happens-IsSafe id loses l n v (inl h) = inl (has_id-mark id l.queue ∙ h)
  happens-IsSafe id loses l n v (inr h) = inr h
  happens-IsSafe id reconnects l n v (inl h) = inl (has_id-map id false l.queue.batches ∙ h)
  happens-IsSafe id reconnects l n v (inr h) = inr h
  happens-IsSafe id (arrives other) l n v h = elim (Bool-cases (acknowledges l.responses other)) [
    | inr e ↦ rw e h
    | inl e ↦ rw e (arrived e h)
  ]
    where
      arrived :
          acknowledges l.responses other ≡ true
          → IsSafe id l
          → IsSafe id (record l { queue = (acknowledge other l.queue).1 })
      arrived e (inl h) = acknowledged-IsSafe id other l v e h
      arrived e (inr h) = inr h
  happens-IsSafe id (configures c) l n v h = h
  happens-IsSafe id (commits b) l n v h = IsSafe-commit_batch id b l l.queue refl h

  -- A batch that is in the queue is, after any events, still there or committed, whatever store keeps
  -- what the interface promises, as long as the queue gives up none of its batches for a new one:
  -- batches and responses may be lost, acknowledgements may come late, twice and in any order, the
  -- connection may be made anew at any time, and other clients may commit batches. At the beginning
  -- every acknowledged batch is committed, as where none is.
  pub happen-IsSafe :
      (id : Text) (es : List (Event F)) (l : Link i)
      → DropsNothingOf es l
      → IsHonest l
      → IsSafe id l
      → IsSafe id (happen es l)
  unfolding happen
  happen-IsSafe id [] l n v h = h
  happen-IsSafe id (e ∷ es) l n v h =
      happen-IsSafe id es (happens e l) n.1 (happens-IsHonest e l v) (happens-IsSafe id e l n.0 v h)
