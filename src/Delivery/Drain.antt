-- ===== src/Delivery/Drain.antt =====
-- How the queue of pending_batch_queue.cpp gets empty against a store behind i_time_series_store.h.
use pulse_mesh.Base.{
  ℕ, zero, suc, ◌≡◌, refl, ap, ◌∙◌, inl, inr, true, false, Text, List, [], ◌∷◌, map, none, some,
  text_eq_refl, All, Option-cases, ok, length,
}
use pulse_mesh.Wire.{MetricBatch}
use pulse_mesh.PendingBatchQueue.{
  PendingBatch, Queue, id_of, has_id, erase_id, set_in_flight, mark_next, mark_next_in_flight,
  acknowledge, reset_in_flight, size,
}
use pulse_mesh.TimeSeriesStore.{BatchCommitOutcome}
use pulse_mesh.TimeSeriesStore.Interface.{ITimeSeriesStore, IsTimeSeriesStore}
use pulse_mesh.Delivery.{
  Link, sends, reconnects, arrives, acknowledges, confirm, deliver, happens, happen,
}
use pulse_mesh.Delivery.Safety.{happens-IsCommitted}

module _ {ℓ} {F : Type ℓ} where
  abbrev pending : List (PendingBatch F) → List (PendingBatch F)
  pending = map (set_in_flight false)

  abbrev sent : PendingBatch F → PendingBatch F
  sent e = set_in_flight true (set_in_flight false e)

  mark-front :
      (e : PendingBatch F) (es : List (PendingBatch F)) (q : Queue F)
      → q.batches ≡ pending (e ∷ es)
      → mark_next_in_flight q ≡ (some e.batch, record q { batches = sent e ∷ pending es })
  unfolding mark_next_in_flight mark_next
  mark-front e es q h =
      let m : mark_next q.batches ≡ some (e.batch, sent e ∷ pending es) = ap mark_next h in
      rw (m, mark_next_in_flight) refl

  acknowledge-front :
      (e : PendingBatch F) (es : List (PendingBatch F)) (q : Queue F)
      → (acknowledge (id_of e) (record q { batches = sent e ∷ pending es })).1
        ≡ record q { batches = pending es }
  unfolding acknowledge has_id erase_id
  acknowledge-front e es q = rw (text_eq_refl (id_of e)) refl

module _ {ℓ} {F : Type ℓ} (i : ITimeSeriesStore F) where
  -- The store answers each of the batches in turn, and refuses none.
  abbrev pub AcceptsAll : List (PendingBatch F) → i.State → Type 0
  AcceptsAll [] s = Unit
  AcceptsAll (e ∷ es) s =
      (o : BatchCommitOutcome) × ((i.commit_batch e.batch s).0 ≡ ok o)
      × AcceptsAll es (i.commit_batch e.batch s).1

module _ {ℓ} {F : Type ℓ} {i : ITimeSeriesStore F} where
  -- The next batch is sent, and its acknowledgement arrives.
  pub round : Link i → Link i
  round l = elim (mark_next_in_flight l.queue).0 [
    | none ↦ l
    | some b ↦ happen (sends ∷ arrives b.batch_id ∷ []) l
  ]

  pub rounds : ℕ → Link i → Link i
  rounds zero l = l
  rounds (suc n) l = rounds n (round l)

  deliver-accepted :
      (b : MetricBatch F) (l : Link i) (o : BatchCommitOutcome)
      → (i.commit_batch b l.store).0 ≡ ok o
      → deliver b l ≡ record l {
        store = (i.commit_batch b l.store).1;
        responses = confirm b.batch_id o ∷ l.responses;
      }
  unfolding deliver
  deliver-accepted b l o h = rw (h, deliver) refl

  -- A round takes the front batch out of a queue in which nothing is in flight.
  abbrev after_front : PendingBatch F → List (PendingBatch F) → BatchCommitOutcome → Link i → Link i
  after_front e es o l = record l {
    queue = record l.queue { batches = pending es };
    store = (i.commit_batch e.batch l.store).1;
    responses = confirm (id_of e) o ∷ l.responses;
  }

  sends-front :
      (e : PendingBatch F) (es : List (PendingBatch F)) (l : Link i) (o : BatchCommitOutcome)
      → l.queue.batches ≡ pending (e ∷ es)
      → (i.commit_batch e.batch l.store).0 ≡ ok o
      → happens sends l
        ≡ record (after_front e es o l) { queue = record l.queue { batches = sent e ∷ pending es } }
  unfolding happens
  sends-front e es l o h a =
      let m = mark-front e es l.queue h in
      rw (ap (λ r. r.0) m, ap (λ r. r.1) m, happens)
        (deliver-accepted e.batch
          (record l { queue = record l.queue { batches = sent e ∷ pending es } }) o a)

  arrives-front :
      (e : PendingBatch F) (es : List (PendingBatch F)) (o : BatchCommitOutcome) (l : Link i)
      → happens (arrives (id_of e)) (record (after_front e es o l) {
        queue = record l.queue { batches = sent e ∷ pending es };
      })
        ≡ after_front e es o l
  unfolding happens acknowledges
  arrives-front e es o l = rw (text_eq_refl (id_of e), acknowledge-front e es l.queue) refl

  round_lem :
      (e : PendingBatch F) (es : List (PendingBatch F)) (l : Link i) (o : BatchCommitOutcome)
      → l.queue.batches ≡ pending (e ∷ es)
      → (i.commit_batch e.batch l.store).0 ≡ ok o
      → round l ≡ after_front e es o l
  unfolding round happen
  round_lem e es l o h a =
      rw (ap (λ r. r.0) (mark-front e es l.queue h), round)
        (ap (happens (arrives (id_of e))) (sends-front e es l o h a) ∙ arrives-front e es o l)

module _ {ℓ} {F : Type ℓ} {i : ITimeSeriesStore F} (laws : IsTimeSeriesStore i) where
  -- The queue is empty, and the batches are committed.
  pub record IsDrained (es : List (PendingBatch F)) (l : Link i) : Type ℓ where
    pub emptied : l.queue.batches ≡ []
    pub recorded : All (λ e. laws.IsCommitted (id_of e) l.store) es

  round-IsCommitted :
      (id : Text) (l : Link i) → laws.IsCommitted id l.store → laws.IsCommitted id (round l).store
  unfolding round happen
  round-IsCommitted id l h = elim (Option-cases (mark_next_in_flight l.queue).0) [
    | inl e ↦ rw (e, round) h
    | inr (b, e) ↦
        rw (e, round)
          (happens-IsCommitted laws id (arrives b.batch_id) (happens sends l)
            (happens-IsCommitted laws id sends l h))
  ]

  rounds-IsCommitted :
      (n : ℕ) (id : Text) (l : Link i)
      → laws.IsCommitted id l.store
      → laws.IsCommitted id (rounds n l).store
  unfolding rounds
  rounds-IsCommitted zero id l h = h
  rounds-IsCommitted (suc n) id l h = rounds-IsCommitted n id (round l) (round-IsCommitted id l h)

  rounds-IsDrained :
      (es : List (PendingBatch F)) (l : Link i)
      → l.queue.batches ≡ pending es
      → AcceptsAll i es l.store
      → IsDrained es (rounds (length es) l)
  unfolding rounds
  rounds-IsDrained [] l h a = record { emptied = h; recorded = tt }
  rounds-IsDrained (e ∷ es) l h (o, answers, later) =
      let next = after_front e es o l in
      let rest = rounds-IsDrained es next refl later in
      rw (rounds, round_lem e es l o h answers)
        (record {
          emptied = rest.emptied;
          recorded = (
            rounds-IsCommitted (length es) (id_of e) next
                (laws.acknowledged e.batch l.store o answers),
            rest.recorded,
          );
        })

  -- From a queue whose batches the store accepts one after the other, whatever store keeps what the
  -- interface promises: after a reset, and as many rounds as there are batches, in each of which the
  -- next batch is sent and its acknowledgement arrives, the queue is empty, and every batch is
  -- committed, also if some had been before and their acknowledgements lost.
  pub rounds-reconnect :
      (l : Link i)
      → AcceptsAll i l.queue.batches l.store
      → IsDrained l.queue.batches (rounds (size l.queue) (happens reconnects l))
  unfolding happens reset_in_flight size
  rounds-reconnect l a =
      rounds-IsDrained l.queue.batches (record l { queue = reset_in_flight l.queue }) refl a
