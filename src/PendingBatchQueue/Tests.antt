-- ===== src/PendingBatchQueue/Tests.antt =====
-- Runs of pending_batch_queue.cpp on small queues.
use pulse_mesh.Base.{
  ◌≡◌, ◌≢◌, ◌↔◌, refl, true, false, Text, List, [], ◌∷◌, some, codes, pos, arith, text_eq,
}
use pulse_mesh.Base.Double.{Whole}
use pulse_mesh.Wire.{Metric, MetricBatch}
use pulse_mesh.PendingBatchQueue.{
  PendingBatch, Queue, Call, enqueues, marks, acknowledges, new, id_of, has_id, enqueue,
  erase_oldest_pending, mark_next_in_flight, acknowledge, reset_in_flight, size, run,
}
use pulse_mesh.PendingBatchQueue.Invariant.{IsValid, run-new-IsValid}
use pulse_mesh.PendingBatchQueue.InFlight.{Effect, enqueue-Effect}
use pulse_mesh.PendingBatchQueue.Kept.{Within, here, run-Within, acknowledge_exact}
use pulse_mesh.PendingBatchQueue.Retry.{drain, payloads, drain-reset_in_flight}
use pulse_mesh.PendingBatchQueue.Accounts.{Balances, tally, nothing, run-Balances}

abbrev load : Metric Whole
load = record {
  name = codes "load";
  value = some 3;
  tags = [];
  timestamp_ms = pos 10;
  source_client_id = [];
}

abbrev batch : Text → MetricBatch Whole
batch id = record { client_id = codes "agent"; metrics = load ∷ []; batch_id = id }

-- Three batches for two places, with the first handed out.
abbrev calls : List (Call Whole)
calls =
    enqueues (batch (codes "a"))
    ∷ marks
    ∷ enqueues (batch (codes "b"))
    ∷ enqueues (batch (codes "c"))
    ∷ []

abbrev sent_a : PendingBatch Whole
sent_a = record { batch = batch (codes "a"); in_flight = true }

abbrev full : Queue Whole
full = record {
  capacity = 2;
  batches = sent_a ∷ (record { batch = batch (codes "b"); in_flight = false }) ∷ [];
  dropped_batches = 0;
}

drops_b : run (new 2) calls ≡ record {
  capacity = 2;
  batches = sent_a ∷ (record { batch = batch (codes "c"); in_flight = false }) ∷ [];
  dropped_batches = 1;
}
unfolding run enqueue mark_next_in_flight new has_id erase_oldest_pending text_eq
drops_b = refl

run-new-IsValid_example : IsValid (run (new 2) calls)
run-new-IsValid_example = run-new-IsValid 2 calls

enqueue-Effect_example : Effect (batch (codes "c")) full (enqueue (batch (codes "c")) full)
enqueue-Effect_example = enqueue-Effect (batch (codes "c")) full

run-Within_example :
    Within sent_a (run full (enqueues (batch (codes "c")) ∷ marks ∷ [])).batches
    × ((acknowledge (codes "a") (run full (enqueues (batch (codes "c")) ∷ marks ∷ []))).0 ≡ true)
run-Within_example =
    run-Within sent_a full (enqueues (batch (codes "c")) ∷ marks ∷ []) refl (here refl)
      (tt, (tt, tt))

acknowledge_exact_example :
    let q = run (new 2) calls in
    ((acknowledge (codes "a") q).0 ≡ has_id (codes "a") q.batches)
    × (has_id (codes "a") (acknowledge (codes "a") q).1.batches ≡ false)
    × ((e : PendingBatch Whole)
        → codes "a" ≢ id_of e
        → Within e q.batches ↔ Within e (acknowledge (codes "a") q).1.batches)
acknowledge_exact_example =
    acknowledge_exact (codes "a") (run (new 2) calls) (run-new-IsValid 2 calls)

drain-reset_in_flight_example : drain (size full) (reset_in_flight full) ≡ payloads full.batches
drain-reset_in_flight_example = drain-reset_in_flight full

run-Balances_example :
    Balances
      (size full)
      0
      (tally nothing full (acknowledges (codes "a") ∷ calls))
      (run full (acknowledges (codes "a") ∷ calls))
run-Balances_example = run-Balances full (acknowledges (codes "a") ∷ calls) (ground arith)
