-- ===== src/Delivery.antt =====
-- cpp/client/impl/pending_batch_queue and a store behind cpp/aggregator/i_time_series_store.h together:
-- an agent's queue, the aggregator's store, and the responses on the way back, as StreamResponse and
-- BatchAck of proto/metrics.proto describe them. The code between the two is not in the repository
-- yet. Here it may lose batches and responses, and deliver a response late and more than once.
pub mod Queued
pub mod Safety
pub mod Drain
pub mod InMemory
pub mod Once
pub mod Agents
pub mod Tests
use pulse_mesh.Base.{
  Bool, true, false, ◌||◌, Text, List, [], ◌∷◌, none, some, if◌then◌else◌, text_eq, ok, unexpected,
}
use pulse_mesh.Wire.{MetricBatch, ClientConfig, StreamResponse, config, ack, payload_not_set}
use pulse_mesh.PendingBatchQueue.{Queue, enqueue, mark_next_in_flight, acknowledge, reset_in_flight}
use pulse_mesh.TimeSeriesStore.{BatchCommitOutcome, committed, duplicate}
use pulse_mesh.TimeSeriesStore.Interface.{ITimeSeriesStore}

-- `responses` are what the aggregator has sent so far, the last first.
pub record Link {ℓ} {F : Type ℓ} (i : ITimeSeriesStore F) : Type ℓ where
  pub queue : Queue F
  pub store : i.State
  pub responses : List StreamResponse

-- A batch comes into the queue; the next batch is sent, and is lost or not; an acknowledgement of a
-- batch ID arrives; the connection is made anew; another client commits a batch; or the aggregator
-- sends a configuration.
pub data Event {ℓ} (F : Type ℓ) : Type ℓ where
  queues : MetricBatch F → Event F
  sends loses reconnects : Event F
  arrives : Text → Event F
  commits : MetricBatch F → Event F
  configures : ClientConfig → Event F

-- Whether one of the responses acknowledges the batch ID.
unfoldable pub acknowledges : List StreamResponse → Text → Bool
acknowledges [] id = false
acknowledges (config c ∷ rs) id = acknowledges rs id
acknowledges (ack a ∷ rs) id = text_eq a.batch_id id || acknowledges rs id
acknowledges (payload_not_set ∷ rs) id = acknowledges rs id

abbrev is_duplicate : BatchCommitOutcome → Bool
is_duplicate committed = false
is_duplicate duplicate = true

abbrev pub confirm : Text → BatchCommitOutcome → StreamResponse
confirm id outcome = ack (record { batch_id = id; duplicate = is_duplicate outcome })

module _ {ℓ} {F : Type ℓ} {i : ITimeSeriesStore F} where
  -- The aggregator commits a batch, and acknowledges it unless it is refused.
  unfoldable pub deliver : MetricBatch F → Link i → Link i
  deliver b l =
      let after = record l { store = (i.commit_batch b l.store).1 } in
      elim (i.commit_batch b l.store).0 [
        | unexpected e ↦ after
        | ok outcome ↦ record after { responses = confirm b.batch_id outcome ∷ l.responses }
      ]

  unfoldable pub happens : Event F → Link i → Link i
  unfolding deliver
  happens (queues b) l = record l { queue = (enqueue b l.queue).1 }
  happens sends l =
      let after = record l { queue = (mark_next_in_flight l.queue).1 } in
      elim (mark_next_in_flight l.queue).0 [ none ↦ after | some b ↦ deliver b after ]
  happens loses l = record l { queue = (mark_next_in_flight l.queue).1 }
  happens reconnects l = record l { queue = reset_in_flight l.queue }
  happens (arrives id) l =
      if acknowledges l.responses id then record l { queue = (acknowledge id l.queue).1 } else l
  happens (commits b) l = record l { store = (i.commit_batch b l.store).1 }
  happens (configures c) l = record l { responses = config c ∷ l.responses }

  unfoldable pub happen : List (Event F) → Link i → Link i
  unfolding happens
  happen [] l = l
  happen (e ∷ es) l = happen es (happens e l)
