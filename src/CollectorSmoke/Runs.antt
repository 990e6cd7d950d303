-- ===== src/CollectorSmoke/Runs.antt =====
-- What a run of `main` of cpp/client/collector_smoke.cpp prints and leaves in its queue.
use pulse_mesh.Base.{
  ℕ, ◌≡◌, refl, ◌∙◌, inl, inr, false, ℤ, Text, List, [], ◌∷◌, none, arith, codes, text_eq,
  text_eq_iff, length, ok, Bool, Bool-cases, if◌then◌else◌, not,
}
use pulse_mesh.Base.Double.{Double}
use pulse_mesh.Wire.{Metric}
use pulse_mesh.ProcMetricCollector
use pulse_mesh.ProcMetricCollector.{
  ProcMetricCollector, SourceReader, default_stat_source, default_meminfo_source,
}
use pulse_mesh.ProcMetricCollector.Counts.{metric_count}
use pulse_mesh.BatchBuilder
use pulse_mesh.BatchBuilder.{make_session_nonce, BatchBuilder, batch_id_at}
use pulse_mesh.BatchBuilder.Identity.{batch_id_at_injective}
use pulse_mesh.PendingBatchQueue
use pulse_mesh.PendingBatchQueue.{PendingBatch, Queue, default_capacity, has_id, size}
use pulse_mesh.CollectorSmoke.{
  Smoke, batch_queued, queued_batches, print, collect_and_enqueue, start, main,
}
use pulse_mesh.CollectorSmoke.Steps.{
  IsReady, sample, after_queued, Stepped, not_collected, not_built, queued,
  collect_and_enqueue-Stepped,
}

abbrev pub client : Text
client = codes "collector-smoke"

abbrev pub proc_collector : ProcMetricCollector
proc_collector = record {
  stat_source = default_stat_source;
  meminfo_source = default_meminfo_source;
  previous_cpu_counters = none;
}

module _ {ℓ} {F : Type ℓ} where
  -- The queue's entry for the batch of a sequence number.
  abbrev pub entry : ℕ → ℕ → List (Metric F) → PendingBatch F
  entry nonce sequence ms = record {
    batch = record {
      client_id = client;
      metrics = ms;
      batch_id = batch_id_at client nonce sequence;
    };
    in_flight = false;
  }

other_id : (nonce : ℕ) → text_eq (batch_id_at client nonce 1) (batch_id_at client nonce 2) ≡ false
other_id nonce =
    elim (Bool-cases (text_eq (batch_id_at client nonce 1) (batch_id_at client nonce 2))) [
      | inr n ↦ n
      | inl e ↦
          let i = (batch_id_at_injective _ _ _ _ _ _ ((text_eq_iff _ _).0 e)).2 in
          absurd (omega (arith, i))
    ]

module _ {ℓ ω} {F : Type ℓ} ⦃d : Double F⦄ {W : Type ω} where
  pub start-IsReady : (high low : ℕ) (w : W) → IsReady (start {F = F} high low w)
  unfolding start BatchBuilder.new BatchBuilder.new_session PendingBatchQueue.new has_id
  start-IsReady high low w = record { named = refl; fresh = refl; room = refl }

module _ {ℓ ω} {F : Type ℓ} ⦃d : Double F⦄ {W : Type ω} (read : SourceReader W) (now : W → ℤ × W)
    (sleep : W → W) where
  -- The program with its baseline in the queue, after it slept.
  abbrev pub rested : ℕ → ℕ → W → List (Metric F) → ProcMetricCollector → W → Smoke F W
  rested high low w ms c v = record (after_queued read now (start high low w) ms c v) {
    world = sleep v;
  }

  -- The ways that a run can go.
  pub data Ran (high low : ℕ) (w : W) : ℕ × Smoke F W → Type (ℓ ⊔ ω) where
    no_baseline :
        (s : Smoke F W)
        → Stepped read now (start high low w) (false, s)
        → s.queue.batches ≡ []
        → Ran high low w (1, s)
    no_usage :
        (ms : List (Metric F)) (c : ProcMetricCollector) (v : W) (s : Smoke F W)
        → sample read now proc_collector w ≡ (ok ms, c, v)
        → Stepped read now (rested high low w ms c v) (false, s)
        → s.queue.batches ≡ entry (make_session_nonce high low) 1 ms ∷ []
        → Ran high low w (1, s)
    both :
        (ms : List (Metric F)) (c : ProcMetricCollector) (v : W) (more : List (Metric F))
        (after : ProcMetricCollector) (u : W)
        → sample read now proc_collector w ≡ (ok ms, c, v)
        → length ms ≡ 3
        → sample read now c (sleep v) ≡ (ok more, after, u)
        → length more ≡ 4
        → Ran high low w (
          0,
          record {
            collector = after;
            builder = record {
              client_id = client;
              session_nonce = make_session_nonce high low;
              next_sequence = 3;
            };
            queue = record {
              capacity = default_capacity;
              batches =
                  entry (make_session_nonce high low) 1 ms
                  ∷ entry (make_session_nonce high low) 2 more
                  ∷ [];
              dropped_batches = 0;
            };
            printed =
                batch_queued (batch_id_at client (make_session_nonce high low) 1) 3
                ∷ batch_queued (batch_id_at client (make_session_nonce high low) 2) 4
                ∷ queued_batches 2
                ∷ [];
            world = u;
          },
        )

  rested-IsReady :
      (high low : ℕ) (w : W) (ms : List (Metric F)) (c : ProcMetricCollector) (v : W)
      → IsReady (rested high low w ms c v)
  unfolding start BatchBuilder.new BatchBuilder.new_session PendingBatchQueue.new has_id
  rested-IsReady high low w ms c v = record {
    named = refl;
    fresh = rw (other_id (make_session_nonce high low)) refl;
    room = refl;
  }

  -- `main` behind its second call.
  after_usage : Bool × Smoke F W → ℕ × Smoke F W
  after_usage (usage, second) =
      if not usage then (1, second) else (0, print (queued_batches (size second.queue)) second)

  -- `main` behind its first call.
  after_baseline : Bool × Smoke F W → ℕ × Smoke F W
  after_baseline (baseline, first) =
      if not baseline
      then (1, first)
      else after_usage (collect_and_enqueue read now (record first { world = sleep first.world }))

  after_usage-Ran :
      (high low : ℕ) (w : W) (ms : List (Metric F)) (c : ProcMetricCollector) (v : W)
      (r : Bool × Smoke F W)
      → sample read now proc_collector w ≡ (ok ms, c, v)
      → length ms ≡ 3
      → metric_count c.previous_cpu_counters ≡ 4
      → Stepped read now (rested high low w ms c v) r
      → Ran high low w (after_usage r)
  unfolding start BatchBuilder.new BatchBuilder.new_session PendingBatchQueue.new
      ProcMetricCollector.new ProcMetricCollector.default_collector after_usage size
  after_usage-Ran high low w ms c v r h n k (not_collected e after u g) =
      no_usage ms c v _ h (not_collected e after u g) refl
  after_usage-Ran high low w ms c v r h n k (not_built more after u g m) =
      no_usage ms c v _ h (not_built more after u g m) refl
  after_usage-Ran high low w ms c v r h n k (queued more after u g m l i) =
      rw k (both ms c v more after u h n g (l ∙ k))

  after_baseline-Ran :
      (high low : ℕ) (w : W) (r : Bool × Smoke F W)
      → Stepped read now (start high low w) r
      → Ran high low w (after_baseline r)
  unfolding start BatchBuilder.new BatchBuilder.new_session PendingBatchQueue.new
      ProcMetricCollector.new ProcMetricCollector.default_collector after_baseline
  after_baseline-Ran high low w r (not_collected e c v g) =
      no_baseline _ (not_collected e c v g) refl
  after_baseline-Ran high low w r (not_built ms c v g m) = no_baseline _ (not_built ms c v g m) refl
  after_baseline-Ran high low w r (queued ms c v g m l i) =
      after_usage-Ran high low w ms c v _ g l i (
        collect_and_enqueue-Stepped read now (rested high low w ms c v)
          (rested-IsReady high low w ms c v))

  -- Every run of the program, whatever its sources and its clock give. It ends with 1 after its first
  -- call failed and the queue is empty, or after its second call failed and the queue has the batch
  -- of the first; such a call could not collect, or its metrics were malformed, and the queue never
  -- refuses a batch. Otherwise it ends with 0, and the queue has two batches that are not in flight,
  -- of three and then four metrics, with the IDs of the sequence numbers 1 and 2, which are printed
  -- in order with their counts, and then the number of batches.
  pub main-Ran : (high low : ℕ) (w : W) → Ran high low w (main {F = F} read now sleep high low w)
  unfolding main after_baseline after_usage
  main-Ran high low w =
      after_baseline-Ran high low w _
        (collect_and_enqueue-Stepped read now (start high low w) (start-IsReady high low w))
