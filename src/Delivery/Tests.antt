-- ===== src/Delivery/Tests.antt =====
-- A queue and a store between which a batch and an acknowledgement are lost.
use pulse_mesh.Base.{
  ℕ, All, first, later, inr, ◌≡◌, inl, refl, true, false, codes, pos, Text, text_eq, arith, List,
  [], ◌∷◌, some, map,
}
use pulse_mesh.Base.Double.{Whole, whole_double}
use pulse_mesh.Wire.{Metric, MetricBatch, config}
use pulse_mesh.PendingBatchQueue.{
  PendingBatch, id_of, has_id, enqueue, enqueue_bounded, mark_next_in_flight, acknowledge,
  reset_in_flight, size, mark_next, erase_id,
}
use pulse_mesh.TimeSeriesStore.{committed, duplicate, new}
use pulse_mesh.TimeSeriesStore.Commit.{
  contains, commit_batch, commit_all, commit_metrics, validate_batch,
}
use pulse_mesh.Delivery.{
  Link, Event, queues, sends, loses, reconnects, arrives, commits, configures, acknowledges,
  confirm, deliver, happens, happen,
}
use pulse_mesh.Delivery.Safety.{IsSafe, IsHonest, DropsNothingOf, happen-IsSafe}
use pulse_mesh.Delivery.Drain.{AcceptsAll, IsDrained, rounds, rounds-reconnect}
use pulse_mesh.Delivery.Once.{deliveries, Brings}
use pulse_mesh.Delivery.Agents.{IsBuilt, sessions-first_deliveries}
use pulse_mesh.BatchBuilder
use pulse_mesh.BatchBuilder.{make_session_nonce, new_session, batch_id_at, hex16, build}
use pulse_mesh.BatchBuilder.Built.{build_all}
use pulse_mesh.Text.Digits.{to_string}
use pulse_mesh.PendingBatchQueue
use pulse_mesh.PendingBatchQueue.Contents.{Holds}
use pulse_mesh.TimeSeriesStore.Commit.Retries.{first_deliveries}
use pulse_mesh.Delivery.InMemory.{IsDeliverable, rounds-reconnect_in_memory}
use pulse_mesh.TimeSeriesStore.InMemory.{in_memory, in_memory_laws}

abbrev load : Metric Whole
load = record {
  name = codes "load";
  value = some 3;
  tags = [];
  timestamp_ms = pos 10;
  source_client_id = [];
}

abbrev batch : Text → MetricBatch Whole
batch id = record { client_id = codes "agent"; metrics = load ∷ []; batch_id = id }

abbrev entry : Text → PendingBatch Whole
entry id = record { batch = batch id; in_flight = false }

abbrev link : Link (in_memory {F = Whole})
link = record {
  queue = record {
    capacity = 3;
    batches = entry (codes "a") ∷ entry (codes "b") ∷ [];
    dropped_batches = 0;
  };
  store = new 8;
  responses = [];
}

-- The first batch is committed and its acknowledgement lost, the second is lost, and all is sent
-- again; then the acknowledgement of the first comes twice.
abbrev events : List (Event Whole)
events =
    sends
    ∷ loses
    ∷ queues (batch (codes "c"))
    ∷ reconnects
    ∷ sends
    ∷ arrives (codes "a")
    ∷ arrives (codes "a")
    ∷ configures (record { sampling_interval_ms = pos 500; metric_names = [] })
    ∷ commits (batch (codes "x"))
    ∷ []

left_in_queue : map id_of (happen events link).queue.batches ≡ codes "b" ∷ codes "c" ∷ []
unfolding happen happens acknowledges deliver enqueue enqueue_bounded mark_next_in_flight mark_next
    acknowledge reset_in_flight has_id erase_id commit_batch commit_metrics validate_batch contains
    new text_eq
left_in_queue = refl

committed_once : (happen events link).store.current_event_id ≡ 2
unfolding happen happens acknowledges deliver enqueue enqueue_bounded mark_next_in_flight mark_next
    acknowledge reset_in_flight has_id erase_id commit_batch commit_metrics validate_batch contains
    new text_eq
committed_once = refl

drops_nothing : DropsNothingOf events link
unfolding happens acknowledges deliver enqueue enqueue_bounded mark_next_in_flight mark_next has_id
    commit_batch commit_metrics validate_batch contains new text_eq
drops_nothing = (tt, (tt, (λ h. absurd (cc), (tt, (tt, (tt, (tt, (tt, (tt, tt)))))))))

a_queued : has_id (codes "a") link.queue.batches ≡ true
unfolding has_id text_eq
a_queued = refl

honest : IsHonest in_memory_laws link
unfolding acknowledges
honest = λ id h. absurd (cc)

happen-IsSafe_example : IsSafe in_memory_laws (codes "a") (happen events link)
happen-IsSafe_example =
    happen-IsSafe in_memory_laws (codes "a") events link drops_nothing honest (inl a_queued)

accepted : AcceptsAll in_memory link.queue.batches link.store
unfolding commit_batch commit_metrics validate_batch contains new text_eq
accepted = (_, refl, (_, refl, tt))

rounds-reconnect_example :
    IsDrained in_memory_laws link.queue.batches (rounds (size link.queue) (happens reconnects link))
rounds-reconnect_example = rounds-reconnect in_memory_laws link accepted

deliverable : IsDeliverable link.queue.batches link.store
unfolding validate_batch new
deliverable = record { valid = (refl, (refl, tt)); fits = ground arith }

rounds-reconnect_in_memory_example :
    IsDrained in_memory_laws link.queue.batches (rounds (size link.queue) (happens reconnects link))
rounds-reconnect_in_memory_example = rounds-reconnect_in_memory link deliverable

-- The second delivery of the first batch is called a duplicate.
said_once :
    (happen events link).responses
    ≡ config (record { sampling_interval_ms = pos 500; metric_names = [] })
      ∷ confirm (codes "a") duplicate
      ∷ confirm (codes "a") committed
      ∷ []
unfolding happen happens acknowledges deliver enqueue enqueue_bounded mark_next_in_flight mark_next
    acknowledge reset_in_flight has_id erase_id commit_batch commit_metrics validate_batch contains
    new text_eq
said_once = refl

abbrev lists : List (List (Metric Whole))
lists = (load ∷ []) ∷ (load ∷ load ∷ []) ∷ []

abbrev sent : ℕ → List (Metric Whole) → MetricBatch Whole
sent k ms = record {
  client_id = codes "agent";
  metrics = ms;
  batch_id = batch_id_at (codes "agent") (make_session_nonce 1 7) k;
}

abbrev others : MetricBatch Whole
others = record {
  client_id = codes "agent";
  metrics = load ∷ [];
  batch_id = batch_id_at (codes "agent") (make_session_nonce 7 1) 1;
}

-- The first batch of the agent is sent twice, and the other agent's is committed twice.
abbrev exchange : List (Event Whole)
exchange =
    queues (sent 1 (load ∷ []))
    ∷ sends
    ∷ commits others
    ∷ reconnects
    ∷ sends
    ∷ queues (sent 2 (load ∷ load ∷ []))
    ∷ commits others
    ∷ sends
    ∷ []

abbrev fresh : Link (in_memory {F = Whole})
fresh = record { queue = PendingBatchQueue.new 3; store = new 8; responses = [] }

abbrev IsSessions : MetricBatch Whole → Type 0
IsSessions = IsBuilt lists (new_session (codes "agent") 1 7) lists (new_session (codes "agent") 7 1)

exchange-IsSessions : All (Brings IsSessions) exchange
unfolding build_all build new_session BatchBuilder.new
exchange-IsSessions = (
  inl (first refl),
  (tt, (inr (first refl), (tt, (tt, (inl (later (first refl)), (inr (first refl), (tt, tt))))))),
)

nothing_queued : Holds IsSessions fresh.queue.batches
unfolding PendingBatchQueue.new
nothing_queued = tt

sessions-first_deliveries_example :
    (happen exchange fresh).store
    ≡ commit_all (first_deliveries (deliveries exchange fresh)) fresh.store
sessions-first_deliveries_example =
    sessions-first_deliveries lists lists (codes "agent") (codes "agent") 1 7 7 1 exchange fresh
      (record { first_fits = ground arith; second_fits = ground arith })
      (record { first_fits = ground arith; second_fits = ground arith })
      (inr (inl (λ h. absurd (omega (arith, h))))) (ground arith) (ground arith) nothing_queued
      exchange-IsSessions

counted_once : (happen exchange fresh).store.current_event_id ≡ 4
unfolding happen happens acknowledges deliver enqueue enqueue_bounded mark_next_in_flight mark_next
    reset_in_flight has_id commit_batch commit_metrics validate_batch contains new text_eq
    PendingBatchQueue.new batch_id_at hex16 to_string make_session_nonce
counted_once = refl
