-- ===== src/TimeSeriesStore/Commit/Samples.antt =====
-- What `commit_batch` of in_memory_time_series_store.cpp keeps of the buffers: one for each name, in order.
use pulse_mesh.Base.{
  ℕ, suc, ◌+◌, ◌<◌, ◌≤◌, ◌≡◌, refl, sym, subst, ◌⊎◌, inl, inr, Text, List, [], ◌∷◌, arith, text_eq,
  text_eq_iff, length, All, All-map, Bool-cases,
}
use pulse_mesh.Base.Maps.{find, put, DistinctKeys, DistinctKeys-put}
use pulse_mesh.Wire.{Metric}
use pulse_mesh.TimeSeriesStore.{StoredMetric, Buffers}
use pulse_mesh.TimeSeriesStore.Buffer.{insert_bounded_metric}
use pulse_mesh.TimeSeriesStore.Buffer.Order.{
  Before, Sorted, All-insert_bounded_metric, insert_bounded_metric-Sorted,
  length-insert_bounded_metric,
}
use pulse_mesh.TimeSeriesStore.Commit.{claim, buffer_or_empty}
use pulse_mesh.TimeSeriesStore.Commit.InPlace.{insert_metrics}
use pulse_mesh.TimeSeriesStore.Commit.Events.{
  is_event, count, count_all, count-insert_bounded_metric, count_all-put,
}

module _ {ℓ} {F : Type ℓ} where
  -- A sample of the metric `name`, from the first `last` events.
  pub record IsSample (name : Text) (last : ℕ) (x : StoredMetric F) : Type ℓ where
    pub named : x.metric.name ≡ name
    pub numbered : 0 < x.event_id
    pub committed_before : x.event_id ≤ last

  pub record IsBuffer (capacity last : ℕ) (name : Text) (b : List (StoredMetric F)) : Type ℓ where
    pub sorted : Sorted b
    pub bounded : length b ≤ capacity
    pub samples : All (IsSample name last) b

  abbrev pub IsEntry : ℕ → ℕ → Text × List (StoredMetric F) → Type ℓ
  IsEntry capacity last e = IsBuffer capacity last e.0 e.1

  -- One buffer for each name, each in order; no event ID occurs twice, and none is above `last`.
  pub record AreBuffers (capacity last : ℕ) (m : Buffers F) : Type ℓ where
    pub distinct : DistinctKeys m
    pub buffers : All (IsEntry capacity last) m
    pub unique : (i : ℕ) → count_all i m ≤ 1
    pub fresh : (i : ℕ) → last < i → count_all i m ≡ 0

  pub All-find :
      (capacity last : ℕ) (k : Text) (m : Buffers F)
      → All (IsEntry capacity last) m
      → IsBuffer capacity last k (buffer_or_empty (find k m))
  unfolding find
  All-find capacity last k [] a = record { sorted = tt; bounded = omega arith; samples = tt }
  All-find capacity last k ((j, b) ∷ m) a = elim (Bool-cases (text_eq j k)) [
    | inl e ↦ rw e (subst (λ n. IsBuffer capacity last n b) ((text_eq_iff j k).0 e) a.0)
    | inr n ↦ rw n (All-find capacity last k m a.1)
  ]

  All-put :
      (capacity last : ℕ) (k : Text) (v : List (StoredMetric F)) (m : Buffers F)
      → All (IsEntry capacity last) m
      → IsBuffer capacity last k v
      → All (IsEntry capacity last) (put k v m)
  unfolding put
  All-put capacity last k v [] a p = (p, tt)
  All-put capacity last k v ((j, b) ∷ m) a p = elim (Bool-cases (text_eq j k)) [
    | inl e ↦ rw e (subst (λ n. IsBuffer capacity last n v) (sym ((text_eq_iff j k).0 e)) p, a.1)
    | inr n ↦ rw n (a.0, All-put capacity last k v m a.1 p)
  ]

  IsSample-suc :
      (name : Text) (last : ℕ) (x : StoredMetric F)
      → IsSample name last x
      → IsSample name (suc last) x
  IsSample-suc name last x p = record {
    named = p.named;
    numbered = p.numbered;
    committed_before = let h = p.committed_before in omega arith;
  }

  IsBuffer-suc :
      (capacity last : ℕ) (e : Text × List (StoredMetric F))
      → IsEntry capacity last e
      → IsEntry capacity (suc last) e
  IsBuffer-suc capacity last e p = record {
    sorted = p.sorted;
    bounded = p.bounded;
    samples =
        All-map (IsSample e.0 last) (IsSample e.0 (suc last)) e.1 (IsSample-suc e.0 last) p.samples;
  }

  newer_apart :
      (name : Text) (last : ℕ) (s x : StoredMetric F)
      → s.event_id ≡ suc last
      → IsSample name last x
      → (Before s x) ⊎ (Before x s)
  newer_apart name last s x e p = let h = p.committed_before in ground arith

  insert-IsBuffer :
      (capacity last : ℕ) (name client : Text) (b : List (StoredMetric F)) (m : Metric F)
      → m.name ≡ name
      → IsBuffer capacity last name b
      → IsBuffer capacity
          (suc last)
          name
          (insert_bounded_metric b (claim client m (suc last)) capacity)
  insert-IsBuffer capacity last name client b m e p = record {
    sorted = insert_bounded_metric-Sorted b (claim client m (suc last)) capacity p.sorted (
        All-map (IsSample name last) _ b
          (λ x q. newer_apart name last (claim client m (suc last)) x refl q) p.samples);
    bounded =
        length-insert_bounded_metric b (claim client m (suc last)) capacity p.sorted p.bounded;
    samples =
        All-insert_bounded_metric (IsSample name (suc last)) b (claim client m (suc last)) capacity
          p.sorted (record { named = e; numbered = omega arith; committed_before = omega arith })
          (All-map (IsSample name last) (IsSample name (suc last)) b (IsSample-suc name last)
            p.samples);
  }

  pub insert-AreBuffers :
      (capacity last : ℕ) (client : Text) (m : Metric F) (buffers : Buffers F)
      → AreBuffers capacity last buffers
      → AreBuffers capacity (suc last) (
          put m.name
            (insert_bounded_metric
              (buffer_or_empty (find m.name buffers))
              (claim client m (suc last))
              capacity)
            buffers)
  insert-AreBuffers capacity last client m buffers v = record {
    distinct = DistinctKeys-put m.name grown buffers v.distinct;
    buffers =
        All-put capacity (suc last) m.name grown buffers
          (All-map (IsEntry capacity last) (IsEntry capacity (suc last)) buffers
            (IsBuffer-suc capacity last) v.buffers)
          (insert-IsBuffer capacity last m.name client old m refl found);
    unique = λ i.
        let f = v.fresh i in
        let u = v.unique i in let c = counted i in let g = growth i in ground arith;
    fresh = λ i h. let f = v.fresh i in let c = counted i in let g = growth i in ground arith;
  }
    where
      old : List (StoredMetric F)
      old = buffer_or_empty (find m.name buffers)

      grown : List (StoredMetric F)
      grown = insert_bounded_metric old (claim client m (suc last)) capacity

      found : IsBuffer capacity last m.name old
      found = All-find capacity last m.name buffers v.buffers

      counted :
          (i : ℕ)
          → count_all i (put m.name grown buffers) + count i old
            ≡ count_all i buffers + count i grown
      counted i = count_all-put i m.name grown buffers

      growth : (i : ℕ) → count i grown ≤ is_event i (claim client m (suc last)) + count i old
      growth i = count-insert_bounded_metric i old (claim client m (suc last)) capacity found.sorted

  pub insert_metrics-AreBuffers :
      (capacity : ℕ) (client : Text) (ms : List (Metric F)) (buffers : Buffers F) (last : ℕ)
      → AreBuffers capacity last buffers
      → AreBuffers capacity (last + length ms) (insert_metrics capacity client buffers ms last)
  unfolding insert_metrics
  insert_metrics-AreBuffers capacity client [] buffers last v =
      let e : last ≡ last + 0 = omega arith in subst (λ n. AreBuffers capacity n buffers) e v
  insert_metrics-AreBuffers capacity client (m ∷ ms) buffers last v =
      let e : suc last + length ms ≡ last + suc (length ms) = omega arith in
      subst (λ n. AreBuffers capacity n (insert_metrics capacity client buffers (m ∷ ms) last)) e
        (insert_metrics-AreBuffers capacity client ms _ (suc last)
          (insert-AreBuffers capacity last client m buffers v))
