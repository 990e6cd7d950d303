-- ===== src/Delivery/Once.antt =====
-- How often the batches of pending_batch_queue.cpp count in in_memory_time_series_store.cpp, however often
-- they are delivered.
use pulse_mesh.Base.{
  ◌≡◌, refl, sym, ap, ◌∙◌, inl, inr, List, [], ◌∷◌, ◌++◌, Option, none, some, Bool-cases,
  Option-cases, All, All-append,
}
use pulse_mesh.Base.Double.{Double}
use pulse_mesh.Wire.{MetricBatch}
use pulse_mesh.PendingBatchQueue.{mark_next_in_flight}
use pulse_mesh.PendingBatchQueue.Contents.{
  Holds, HoldsOf, enqueue-Holds, mark_next_in_flight-Holds, acknowledge-Holds,
  reset_in_flight-Holds,
}
use pulse_mesh.TimeSeriesStore.{Store}
use pulse_mesh.TimeSeriesStore.Commit.{commit_batch, commit_all}
use pulse_mesh.TimeSeriesStore.Commit.Retries.{
  first_deliveries, AreRetries, commit_all-first_deliveries,
}
use pulse_mesh.TimeSeriesStore.InMemory.{in_memory}
use pulse_mesh.Delivery.{
  Link, Event, queues, sends, loses, reconnects, arrives, commits, configures, acknowledges,
  happens, happen,
}
use pulse_mesh.Delivery.Safety.{deliver_parts}

module _ {ℓ} {F : Type ℓ} ⦃d : Double F⦄ where
  abbrev handed : Option (MetricBatch F) → List (MetricBatch F)
  handed none = []
  handed (some b) = b ∷ []

  -- The batch that comes to the store with an event, if one does.
  abbrev pub delivered : Event F → Link (in_memory {F = F}) → List (MetricBatch F)
  delivered sends l = handed (mark_next_in_flight l.queue).0
  delivered (commits b) l = b ∷ []
  delivered _ l = []

  -- All batches that come to the store, in order.
  pub deliveries : List (Event F) → Link (in_memory {F = F}) → List (MetricBatch F)
  deliveries [] l = []
  deliveries (e ∷ es) l = delivered e l ++ deliveries es (happens e l)

  happens-store :
      (e : Event F) (l : Link (in_memory {F = F}))
      → (happens e l).store ≡ commit_all (delivered e l) l.store
  unfolding happens commit_all
  happens-store (queues b) l = refl
  happens-store sends l = elim (Option-cases (mark_next_in_flight l.queue).0) [
    | inl e ↦ rw (e, happens) refl
    | inr (b, e) ↦
        rw (e, happens) (deliver_parts b (record l { queue = (mark_next_in_flight l.queue).1 })).1
  ]
  happens-store loses l = refl
  happens-store reconnects l = refl
  happens-store (arrives id) l = elim (Bool-cases (acknowledges l.responses id)) [
    | inl e ↦ rw e refl
    | inr e ↦ rw e refl
  ]
  happens-store (commits b) l = refl
  happens-store (configures c) l = refl

  commit_all-append :
      (xs ys : List (MetricBatch F)) (s : Store F)
      → commit_all (xs ++ ys) s ≡ commit_all ys (commit_all xs s)
  unfolding commit_all
  commit_all-append [] ys s = refl
  commit_all-append (x ∷ xs) ys s = commit_all-append xs ys (commit_batch x s).1

  happen-store :
      (es : List (Event F)) (l : Link (in_memory {F = F}))
      → (happen es l).store ≡ commit_all (deliveries es l) l.store
  unfolding happen deliveries commit_all
  happen-store [] l = refl
  happen-store (e ∷ es) l =
      happen-store es (happens e l)
      ∙ ap (commit_all (deliveries es (happens e l))) (happens-store e l)
      ∙ sym (commit_all-append (delivered e l) (deliveries es (happens e l)) l.store)

module _ {ℓ κ} {F : Type ℓ} ⦃d : Double F⦄ (P : MetricBatch F → Type κ) where
  -- The batch that an event brings has the property.
  abbrev pub Brings : Event F → Type κ
  Brings (queues b) = P b
  Brings (commits b) = P b
  Brings _ = Unit

  happens-Holds :
      (e : Event F) (l : Link (in_memory {F = F}))
      → Brings e
      → Holds P l.queue.batches
      → Holds P (happens e l).queue.batches
  unfolding happens
  happens-Holds (queues b) l p h = enqueue-Holds P b l.queue p h
  happens-Holds sends l p h = elim (Option-cases (mark_next_in_flight l.queue).0) [
    | inl e ↦ rw (e, happens) (mark_next_in_flight-Holds P l.queue h).1
    | inr (b, e) ↦
        rw (e, happens, (deliver_parts b (record l { queue = (mark_next_in_flight l.queue).1 })).0)
          (mark_next_in_flight-Holds P l.queue h).1
  ]
  happens-Holds loses l p h = (mark_next_in_flight-Holds P l.queue h).1
  happens-Holds reconnects l p h = reset_in_flight-Holds P l.queue h
  happens-Holds (arrives id) l p h = elim (Bool-cases (acknowledges l.responses id)) [
    | inl e ↦ rw e (acknowledge-Holds P id l.queue h)
    | inr e ↦ rw e h
  ]
  happens-Holds (commits b) l p h = h
  happens-Holds (configures c) l p h = h

  handed-All : (o : Option (MetricBatch F)) → HoldsOf P o → All P (handed o)
  handed-All none h = tt
  handed-All (some b) h = (h, tt)

  delivered-All :
      (e : Event F) (l : Link (in_memory {F = F}))
      → Brings e
      → Holds P l.queue.batches
      → All P (delivered e l)
  delivered-All (queues b) l p h = tt
  delivered-All sends l p h =
      handed-All (mark_next_in_flight l.queue).0 (mark_next_in_flight-Holds P l.queue h).0
  delivered-All loses l p h = tt
  delivered-All reconnects l p h = tt
  delivered-All (arrives id) l p h = tt
  delivered-All (commits b) l p h = (p, tt)
  delivered-All (configures c) l p h = tt

  deliveries-All :
      (es : List (Event F)) (l : Link (in_memory {F = F}))
      → All Brings es
      → Holds P l.queue.batches
      → All P (deliveries es l)
  unfolding deliveries
  deliveries-All [] l p h = tt
  deliveries-All (e ∷ es) l p h =
      All-append P (delivered e l) (deliveries es (happens e l)) (delivered-All e l p.0 h)
        (deliveries-All es (happens e l) p.1 (happens-Holds e l p.0 h))

  -- No two different batches with the property have the same ID.
  abbrev pub IsIdentified : Type (ℓ ⊔ κ)
  IsIdentified = (x y : MetricBatch F) → P x → P y → x.batch_id ≡ y.batch_id → x ≡ y

  All-same :
      (b : MetricBatch F) (xs : List (MetricBatch F))
      → IsIdentified
      → P b
      → All P xs
      → All (λ x. x.batch_id ≡ b.batch_id → x ≡ b) xs
  All-same b [] i p a = tt
  All-same b (x ∷ xs) i p a = (i x b a.0 p, All-same b xs i p a.1)

  All-AreRetries : (xs : List (MetricBatch F)) → IsIdentified → All P xs → AreRetries xs
  All-AreRetries [] i a = tt
  All-AreRetries (x ∷ xs) i a = (All-same x xs i a.0 a.1, All-AreRetries xs i a.1)

  -- Every batch counts once. After any events the store is as if each batch that came to it had come
  -- once, when it first came: batches and acknowledgements may be lost, so that the agent sends a
  -- batch again, and other clients may commit batches and retry them. The batches, those in the
  -- queue at the beginning and those that come with the events, are identified: no two different
  -- ones have the same ID.
  pub happen-first_deliveries :
      (es : List (Event F)) (l : Link (in_memory {F = F}))
      → IsIdentified
      → Holds P l.queue.batches
      → All Brings es
      → (happen es l).store ≡ commit_all (first_deliveries (deliveries es l)) l.store
  happen-first_deliveries es l i h p =
      happen-store es l
      ∙ commit_all-first_deliveries (deliveries es l) l.store
          (All-AreRetries (deliveries es l) i (deliveries-All es l p h))
