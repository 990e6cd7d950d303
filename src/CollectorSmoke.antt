-- ===== src/CollectorSmoke.antt =====
-- cpp/client/collector_smoke.cpp: a program that collects twice from /proc, and queues what it builds.
-- The world `W` is what its collector reads, with the clock; to sleep is to change it.
pub mod Steps
pub mod Runs
pub mod Tests
use pulse_mesh.Base.{
  ℕ, Bool, true, false, not, ℤ, Text, List, [], ◌∷◌, ◌++◌, codes, if◌then◌else◌, length, Expected,
  ok, unexpected,
}
use pulse_mesh.Base.Double.{Double}
use pulse_mesh.Text.Digits.{to_string}
use pulse_mesh.Wire.{Metric, MetricBatch}
use pulse_mesh.MetricCollector.{MetricCollectionError}
use pulse_mesh.ProcMetricCollector
use pulse_mesh.ProcMetricCollector.{ProcMetricCollector, SourceReader, collect}
use pulse_mesh.BatchBuilder
use pulse_mesh.BatchBuilder.{BatchBuilder, build}
use pulse_mesh.PendingBatchQueue
use pulse_mesh.PendingBatchQueue.{
  EnqueueResult, enqueued, dropped_oldest, rejected_all_in_flight, invalid_batch, duplicate_batch,
  Queue, default_capacity, enqueue, size,
}

-- What is written to `std::cout` and to `std::cerr`.
pub data Line : Type 0 where
  out err : Text → Line

-- The program's objects, its output so far and the world.
pub record Smoke {ℓ ω} (F : Type ℓ) (W : Type ω) : Type (ℓ ⊔ ω) where
  pub collector : ProcMetricCollector
  pub builder : BatchBuilder
  pub queue : Queue F
  pub printed : List Line
  pub world : W

abbrev pub collection_failed : MetricCollectionError → Line
collection_failed e = err (
    codes "[CollectorSmoke] collection failed: "
    ++ (e.operation ++ (codes " (" ++ (e.source ++ codes ")\n"))))

abbrev pub batch_creation_failed : Line
batch_creation_failed = err (codes "[CollectorSmoke] batch creation failed\n")

abbrev pub enqueue_failed : Line
enqueue_failed = err (codes "[CollectorSmoke] enqueue failed\n")

abbrev pub batch_queued : Text → ℕ → Line
batch_queued batch_id metric_count = out (
    codes "[CollectorSmoke] batch_id="
    ++ (batch_id ++ (codes " metrics=" ++ (to_string metric_count ++ codes "\n"))))

abbrev pub queued_batches : ℕ → Line
queued_batches n = out (codes "[CollectorSmoke] queued_batches=" ++ (to_string n ++ codes "\n"))

abbrev pub is_enqueued : EnqueueResult → Bool
is_enqueued enqueued = true
is_enqueued dropped_oldest = false
is_enqueued rejected_all_in_flight = false
is_enqueued invalid_batch = false
is_enqueued duplicate_batch = false

module _ {ℓ ω} {F : Type ℓ} ⦃d : Double F⦄ {W : Type ω} where
  abbrev pub print : Line → Smoke F W → Smoke F W
  print line s = record s { printed = s.printed ++ (line ∷ []) }

  -- The objects of `main`; the numbers are those that the builder draws.
  unfoldable pub start : ℕ → ℕ → W → Smoke F W
  start high low world = record {
    collector = ProcMetricCollector.default_collector;
    builder = BatchBuilder.new_session (codes "collector-smoke") high low;
    queue = PendingBatchQueue.new default_capacity;
    printed = [];
    world = world;
  }

  -- `collect_and_enqueue` from where a batch is built.
  unfoldable pub enqueue_batch : MetricBatch F → Smoke F W → Bool × Smoke F W
  enqueue_batch batch s =
      let (result, queue) = enqueue batch s.queue in
      let after = record s { queue = queue } in
      if not (is_enqueued result)
      then (false, print enqueue_failed after)
      else (true, print (batch_queued batch.batch_id (length batch.metrics)) after)

  -- `collect_and_enqueue` from where the metrics are collected.
  unfoldable pub build_and_enqueue : List (Metric F) → Smoke F W → Bool × Smoke F W
  unfolding enqueue_batch
  build_and_enqueue metrics s =
      let (batch, builder) = build metrics s.builder in
      let after = record s { builder = builder } in
      elim batch [
        | unexpected e ↦ (false, print batch_creation_failed after)
        | ok b ↦ enqueue_batch b after
      ]

  module _ (read : SourceReader W) (now : W → ℤ × W) where
    unfoldable pub collect_and_enqueue : Smoke F W → Bool × Smoke F W
    unfolding build_and_enqueue
    collect_and_enqueue s =
        let (sampled_at, ticked) = now s.world in
        let (metrics, collector, world) = collect {F = F} read sampled_at s.collector ticked in
        let after = record s { collector = collector; world = world } in
        elim metrics [
          | unexpected e ↦ (false, print (collection_failed e) after)
          | ok ms ↦ build_and_enqueue ms after
        ]

    -- `main`, with its exit code; `sleep` is the 100 milliseconds that it waits.
    unfoldable pub main : (W → W) → ℕ → ℕ → W → ℕ × Smoke F W
    unfolding collect_and_enqueue start
    main sleep high low world =
        let (baseline, first) = collect_and_enqueue (start high low world) in
        if not baseline
        then (1, first)
        else let (usage, second) =
            collect_and_enqueue (record first { world = sleep first.world }) in
          if not usage then (1, second) else (0, print (queued_batches (size second.queue)) second)
