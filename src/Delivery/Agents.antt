-- ===== src/Delivery/Agents.antt =====
-- The batches of batch_builder.cpp, from an agent's queue and from another agent, in
-- in_memory_time_series_store.cpp.
use pulse_mesh.Base.{
  All-Occurs, Occurs, first, later, ℕ, ◌+◌, ◌<◌, ◌^◌, ◌≡◌, ◌≢◌, sym, ap, ◌∙◌, ◌⊎◌, inl, inr, Text,
  List, [], ◌∷◌, All, length,
}
use pulse_mesh.Base.Double.{Double}
use pulse_mesh.Wire.{Metric, MetricBatch}
use pulse_mesh.BatchBuilder.{BatchBuilder, new, new_session}
use pulse_mesh.BatchBuilder.Built.{build_all, DistinctIds, build_all-DistinctIds}
use pulse_mesh.BatchBuilder.Session.{AreDraws, Differ, DisjointIds, build_all-DisjointIds}
use pulse_mesh.PendingBatchQueue.Contents.{Holds}
use pulse_mesh.TimeSeriesStore.Commit.{commit_all}
use pulse_mesh.TimeSeriesStore.Commit.Retries.{first_deliveries}
use pulse_mesh.TimeSeriesStore.InMemory.{in_memory}
use pulse_mesh.Delivery.{Link, Event, happen}
use pulse_mesh.Delivery.Once.{deliveries, Brings, IsIdentified, happen-first_deliveries}

module _ {ℓ} {F : Type ℓ} ⦃d : Double F⦄ where
  DistinctIds-same :
      (xs : List (MetricBatch F)) (x y : MetricBatch F)
      → DistinctIds xs
      → Occurs x xs
      → Occurs y xs
      → x.batch_id ≡ y.batch_id
      → x ≡ y
  DistinctIds-same [] x y n o p h = elim o [ ]
  DistinctIds-same (z ∷ zs) x y n (first e) (first f) h = sym e ∙ f
  DistinctIds-same (z ∷ zs) x y n (first e) (later o) h =
      absurd (All-Occurs (λ w. z.batch_id ≢ w.batch_id) zs y o n.0 (ap (λ w. w.batch_id) e ∙ h))
  DistinctIds-same (z ∷ zs) x y n (later o) (first f) h =
      absurd (All-Occurs (λ w. z.batch_id ≢ w.batch_id) zs x o n.0 (ap (λ w. w.batch_id) f ∙ sym h))
  DistinctIds-same (z ∷ zs) x y n (later o) (later p) h = DistinctIds-same zs x y n.1 o p h

  -- The batch is one that the session of the agent builds, or the other one.
  abbrev pub IsBuilt :
      List (List (Metric F))
      → BatchBuilder
      → List (List (Metric F))
      → BatchBuilder
      → MetricBatch F
      → Type ℓ
  IsBuilt mss b nss c x = Occurs x (build_all mss b) ⊎ Occurs x (build_all nss c)

  IsBuilt-IsIdentified :
      (mss nss : List (List (Metric F))) (b c : BatchBuilder)
      → DistinctIds (build_all mss b)
      → DistinctIds (build_all nss c)
      → DisjointIds (build_all mss b) (build_all nss c)
      → IsIdentified (IsBuilt mss b nss c)
  IsBuilt-IsIdentified mss nss b c m n a x y (inl o) (inl p) h = DistinctIds-same _ x y m o p h
  IsBuilt-IsIdentified mss nss b c m n a x y (inr o) (inr p) h = DistinctIds-same _ x y n o p h
  IsBuilt-IsIdentified mss nss b c m n a x y (inl o) (inr p) h =
      absurd (All-Occurs _ (build_all nss c) y p (All-Occurs _ (build_all mss b) x o a) h)
  IsBuilt-IsIdentified mss nss b c m n a x y (inr o) (inl p) h =
      absurd (All-Occurs _ (build_all nss c) x o (All-Occurs _ (build_all mss b) y p a) (sym h))

  new_session-DistinctIds :
      (mss : List (List (Metric F))) (client : Text) (high low : ℕ)
      → 1 + length mss < 2 ^ 64
      → DistinctIds (build_all mss (new_session client high low))
  new_session-DistinctIds mss client high low h =
      build_all-DistinctIds mss (new_session client high low) (unfold new_session new in h)

  -- Two agents and the store. The batches that come with the events, and those in the agent's queue
  -- at the beginning, are built by two sessions with different client IDs or draws, which build fewer
  -- batches than `uint64_t` has sequence numbers. However often the batches are lost, retried and
  -- committed, the store is as if each had come once, when it first came.
  pub sessions-first_deliveries :
      (mss nss : List (List (Metric F))) (client other : Text) (a b c e : ℕ) (es : List (Event F))
      (l : Link (in_memory {F = F}))
      → AreDraws a b
      → AreDraws c e
      → Differ client a b other c e
      → 1 + length mss < 2 ^ 64
      → 1 + length nss < 2 ^ 64
      → Holds (IsBuilt mss (new_session client a b) nss (new_session other c e)) l.queue.batches
      → All (Brings (IsBuilt mss (new_session client a b) nss (new_session other c e))) es
      → (happen es l).store ≡ commit_all (first_deliveries (deliveries es l)) l.store
  sessions-first_deliveries mss nss client other a b c e es l v w n f g h p =
      happen-first_deliveries _ es l
        (IsBuilt-IsIdentified mss nss (new_session client a b) (new_session other c e)
          (new_session-DistinctIds mss client a b f) (new_session-DistinctIds nss other c e g)
          (build_all-DisjointIds mss nss client other a b c e v w n))
        h p
