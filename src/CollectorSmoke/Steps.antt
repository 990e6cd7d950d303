-- ===== src/CollectorSmoke/Steps.antt =====
-- The results of `collect_and_enqueue` of cpp/client/collector_smoke.cpp.
use pulse_mesh.Base.{
  ℕ, ◌+◌, ◌%◌, ◌^◌, ◌<◌, ◌≡◌, refl, ap, subst, triple-eq, inl, inr, Bool, true, false, ◌==◌, ℤ,
  List, Option, none, some, arith, is_empty, length, Expected, ok, unexpected, Bool-cases,
  Expected-cases,
}
use pulse_mesh.Base.Double.{Double}
use pulse_mesh.Wire.{Metric, MetricBatch}
use pulse_mesh.MetricCollector.{MetricCollectionError}
use pulse_mesh.ProcMetricCollector.{ProcMetricCollector, SourceReader, collect}
use pulse_mesh.ProcMetricCollector.Cpu.{CpuCounters}
use pulse_mesh.ProcMetricCollector.Counts.{metric_count, Counted, collect-Counted}
use pulse_mesh.BatchBuilder.{
  build_error, BatchBuilder, invalid_metric, any_malformed, batch_id_at, next_batch_id, build,
}
use pulse_mesh.BatchBuilder.Built.{is_empty-batch_id_at}
use pulse_mesh.PendingBatchQueue.{
  Queue, enqueued, has_id, is_invalid, push_back, enqueue_bounded, enqueue,
}
use pulse_mesh.CollectorSmoke.{
  Smoke, collection_failed, batch_creation_failed, batch_queued, print, enqueue_batch,
  build_and_enqueue, collect_and_enqueue,
}

abbrev pub advanced : BatchBuilder → BatchBuilder
advanced b = record b { next_sequence = (b.next_sequence + 1) % 2 ^ 64 }

metric_count-positive : (o : Option CpuCounters) → 0 < metric_count o
metric_count-positive none = omega arith
metric_count-positive (some p) = omega arith

module _ {ℓ} {F : Type ℓ} ⦃d : Double F⦄ where
  -- The batch that a builder makes next.
  abbrev pub next_batch : BatchBuilder → List (Metric F) → MetricBatch F
  next_batch b ms = record {
    client_id = b.client_id;
    metrics = ms;
    batch_id = batch_id_at b.client_id b.session_nonce b.next_sequence;
  }

  build-malformed :
      (ms : List (Metric F)) (b : BatchBuilder)
      → is_empty b.client_id ≡ false
      → is_empty ms ≡ false
      → any_malformed ms ≡ true
      → build ms b ≡ (unexpected (build_error invalid_metric), b)
  unfolding build
  build-malformed ms b h g m = rw (h, g, m) refl

  build-next_batch :
      (ms : List (Metric F)) (b : BatchBuilder)
      → is_empty b.client_id ≡ false
      → is_empty ms ≡ false
      → any_malformed ms ≡ false
      → build ms b ≡ (ok (next_batch b ms), advanced b)
  unfolding build next_batch_id
  build-next_batch ms b h g m = rw (h, g, m) refl

  enqueue-enqueued :
      (b : MetricBatch F) (q : Queue F)
      → is_invalid b ≡ false
      → has_id b.batch_id q.batches ≡ false
      → (length q.batches == q.capacity) ≡ false
      → enqueue b q ≡ (enqueued, record q { batches = push_back q.batches b })
  unfolding enqueue enqueue_bounded
  enqueue-enqueued b q i h g = rw (i, h, g) refl

  is_empty-length : (n : ℕ) (ms : List (Metric F)) → length ms ≡ n → 0 < n → is_empty ms ≡ false
  is_empty-length n ms h g = ground arith

  next_batch-valid :
      (ms : List (Metric F)) (b : BatchBuilder)
      → is_empty b.client_id ≡ false
      → is_empty ms ≡ false
      → is_invalid (next_batch b ms) ≡ false
  next_batch-valid ms b h g =
      rw (h, g, is_empty-batch_id_at b.client_id b.session_nonce b.next_sequence) refl

module _ {ℓ ω} {F : Type ℓ} ⦃d : Double F⦄ {W : Type ω} where
  -- The builder has a client, its next ID is not in the queue, and the queue has room.
  pub record IsReady (s : Smoke F W) : Type ℓ where
    pub named : is_empty s.builder.client_id ≡ false
    pub fresh :
        has_id
          (batch_id_at s.builder.client_id s.builder.session_nonce s.builder.next_sequence)
          s.queue.batches
        ≡ false
    pub room : (length s.queue.batches == s.queue.capacity) ≡ false

  enqueue_batch-queued :
      (b : MetricBatch F) (s : Smoke F W)
      → is_invalid b ≡ false
      → has_id b.batch_id s.queue.batches ≡ false
      → (length s.queue.batches == s.queue.capacity) ≡ false
      → enqueue_batch b s ≡ (
        true,
        print
            (batch_queued b.batch_id (length b.metrics))
            (record s { queue = record s.queue { batches = push_back s.queue.batches b } }),
      )
  unfolding enqueue_batch
  enqueue_batch-queued b s i h g =
      let e = enqueue-enqueued b s.queue i h g in
      rw (ap (λ r. r.0) e, ap (λ r. r.1) e, enqueue_batch) refl

  build_and_enqueue-malformed :
      (ms : List (Metric F)) (s : Smoke F W)
      → is_empty s.builder.client_id ≡ false
      → is_empty ms ≡ false
      → any_malformed ms ≡ true
      → build_and_enqueue ms s ≡ (false, print batch_creation_failed s)
  unfolding build_and_enqueue
  build_and_enqueue-malformed ms s h g m =
      let e = build-malformed ms s.builder h g m in
      rw (ap (λ r. r.0) e, ap (λ r. r.1) e, build_and_enqueue) refl

  build_and_enqueue-queued :
      (ms : List (Metric F)) (s : Smoke F W)
      → IsReady s
      → is_empty ms ≡ false
      → any_malformed ms ≡ false
      → build_and_enqueue ms s
        ≡ enqueue_batch (next_batch s.builder ms) (record s { builder = advanced s.builder })
  unfolding build_and_enqueue
  build_and_enqueue-queued ms s r g m =
      let e = build-next_batch ms s.builder r.named g m in
      rw (ap (λ r. r.0) e, ap (λ r. r.1) e, build_and_enqueue) refl

module _ {ℓ ω} {F : Type ℓ} ⦃d : Double F⦄ {W : Type ω} (read : SourceReader W)
    (now : W → ℤ × W) where
  -- The clock's time, and a collection at that time.
  abbrev pub sample :
      ProcMetricCollector
      → W
      → Expected MetricCollectionError (List (Metric F)) × ProcMetricCollector × W
  sample c w = let (sampled_at, ticked) = now w in collect read sampled_at c ticked

  -- The program after its batch was queued.
  abbrev pub after_queued : Smoke F W → List (Metric F) → ProcMetricCollector → W → Smoke F W
  after_queued s ms c w =
      print
        (batch_queued (next_batch s.builder ms).batch_id
          (metric_count s.collector.previous_cpu_counters))
        (record s {
          collector = c;
          builder = advanced s.builder;
          queue = record s.queue { batches = push_back s.queue.batches (next_batch s.builder ms) };
          world = w;
        })

  pub data Stepped (s : Smoke F W) : Bool × Smoke F W → Type (ℓ ⊔ ω) where
    not_collected :
        (e : MetricCollectionError) (c : ProcMetricCollector) (w : W)
        → sample s.collector s.world ≡ (unexpected e, c, w)
        → Stepped s (false, print (collection_failed e) (record s { collector = c; world = w }))
    not_built :
        (ms : List (Metric F)) (c : ProcMetricCollector) (w : W)
        → sample s.collector s.world ≡ (ok ms, c, w)
        → any_malformed ms ≡ true
        → Stepped s (false, print batch_creation_failed (record s { collector = c; world = w }))
    queued :
        (ms : List (Metric F)) (c : ProcMetricCollector) (w : W)
        → sample s.collector s.world ≡ (ok ms, c, w)
        → any_malformed ms ≡ false
        → length ms ≡ metric_count s.collector.previous_cpu_counters
        → metric_count c.previous_cpu_counters ≡ 4
        → Stepped s (true, after_queued s ms c w)

  after_sample :
      (s : Smoke F W) (ms : List (Metric F)) (c : ProcMetricCollector) (w : W)
      → sample s.collector s.world ≡ (ok ms, c, w)
      → length ms ≡ metric_count s.collector.previous_cpu_counters
      → metric_count c.previous_cpu_counters ≡ 4
      → IsReady s
      → Stepped s (build_and_enqueue ms (record s { collector = c; world = w }))
  after_sample s ms c w h n k r =
      let t : Smoke F W = record s { collector = c; world = w } in
      let some_metrics : is_empty ms ≡ false =
        is_empty-length _ ms n (metric_count-positive s.collector.previous_cpu_counters) in
      elim (Bool-cases (any_malformed ms)) [
        | inl bad ↦
            rw (build_and_enqueue-malformed ms t r.named some_metrics bad) (not_built ms c w h bad)
        | inr good ↦
            rw
              (
                build_and_enqueue-queued ms t
                    (record { named = r.named; fresh = r.fresh; room = r.room }) some_metrics good,
                enqueue_batch-queued (next_batch s.builder ms)
                    (record t { builder = advanced s.builder })
                    (next_batch-valid ms s.builder r.named some_metrics) r.fresh r.room,
                n,
              )
              (queued ms c w h good n k)
      ]

  -- What `collect_and_enqueue` does where the builder has a client ID, the queue has room and the next
  -- batch ID is not in it. A failed collection is reported, and metrics without a name or with a value
  -- that is not finite are; the builder and the queue stay as they were. Otherwise the metrics, three
  -- and with a snapshot from before four, are queued behind the others as a batch with the next ID,
  -- which is printed with their number.
  pub collect_and_enqueue-Stepped :
      (s : Smoke F W) → IsReady s → Stepped s (collect_and_enqueue read now s)
  unfolding collect_and_enqueue
  collect_and_enqueue-Stepped s r =
      let result = sample s.collector s.world in
      elim (Expected-cases result.0) [
        | inl (e, h) ↦ rw (h, collect_and_enqueue) (not_collected e _ _ (triple-eq result _ h))
        | inr (ms, h) ↦
            let counted : Counted read s.collector (ok ms, result.1, result.2) =
              subst (Counted read s.collector) (triple-eq result _ h)
                (collect-Counted F read (now s.world).0 s.collector (now s.world).1) in
            rw (h, collect_and_enqueue)
              (after_sample s ms result.1 result.2 (triple-eq result _ h) counted.0 counted.1 r)
      ]
