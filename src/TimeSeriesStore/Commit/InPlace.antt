-- ===== src/TimeSeriesStore/Commit/InPlace.antt =====
-- `commit_batch` of in_memory_time_series_store.cpp works on staged copies of the buffers, which it
-- publishes at the end: the staging loop against insertions into the published buffers.
use pulse_mesh.Base.{
  ℕ, suc, ◌+◌, ◌≡◌, refl, sym, ap, subst, ◌∙◌, inl, inr, true, false, Text, List, [], ◌∷◌, Option,
  none, some, arith, text_eq, text_eq_iff, text_eq_refl, length, Bool-cases,
}
use pulse_mesh.Base.Maps.{find, put, has_key, DistinctKeys, DistinctKeys-put, find-put, has_key-put}
use pulse_mesh.Wire.{Metric, MetricBatch}
use pulse_mesh.TimeSeriesStore.{StoredMetric, Buffers, Store}
use pulse_mesh.TimeSeriesStore.Buffer.{insert_bounded_metric}
use pulse_mesh.TimeSeriesStore.Commit.{
  claim, buffer_or_empty, staged_or_current, stage_metric, stage, publish, commit_metrics,
}

module _ {ℓ} {V : Type ℓ} where
  put-put_self : (k : Text) (u v : V) (m : List (Text × V)) → put k v (put k u m) ≡ put k v m
  unfolding put
  put-put_self k u v [] = rw (text_eq_refl k)
  put-put_self k u v ((i, w) ∷ m) = ground (arith, put-put_self k u v m)

  put-put_comm :
      (k j : Text) (u v : V) (m : List (Text × V))
      → text_eq j k ≡ false
      → has_key k m ≡ true
      → put k v (put j u m) ≡ put j u (put k v m)
  unfolding put has_key
  put-put_comm k j u v [] n h = cc
  put-put_comm k j u v ((i, w) ∷ m) n h = ground (
    arith,
    text_eq_iff i k,
    text_eq_iff i j,
    text_eq_iff j k,
    text_eq_refl k,
    text_eq_refl j,
    put-put_comm k j u v m n,
  )

module _ {ℓ} {F : Type ℓ} where
  publish-put_below :
      (k : Text) (v : List (StoredMetric F)) (staged dest : Buffers F)
      → has_key k staged ≡ false
      → has_key k dest ≡ true
      → publish (put k v dest) staged ≡ put k v (publish dest staged)
  unfolding publish has_key
  publish-put_below k v [] dest h g = refl
  publish-put_below k v ((j, u) ∷ staged) dest h g =
      let other : text_eq j k ≡ false = ground arith in
      let below : has_key k (put j u dest) ≡ true = rw (has_key-put j k u dest, other) g in
      ap (λ d. publish d staged) (sym (put-put_comm k j u v dest other g))
      ∙ publish-put_below k v staged (put j u dest) (ground arith) below

  publish-put_same :
      (j : Text) (u v : List (StoredMetric F)) (staged dest : Buffers F)
      → has_key j staged ≡ false
      → publish (put j v dest) staged ≡ put j v (publish (put j u dest) staged)
  publish-put_same j u v staged dest h =
      ap (λ d. publish d staged) (sym (put-put_self j u v dest))
      ∙ publish-put_below j v staged (put j u dest) h (rw (has_key-put j j u dest, text_eq_refl j))

  -- To change a staged buffer is to change the published ones after the publication.
  publish-put :
      (k : Text) (v : List (StoredMetric F)) (staged dest : Buffers F)
      → DistinctKeys staged
      → publish dest (put k v staged) ≡ put k v (publish dest staged)
  unfolding publish put
  publish-put k v [] dest d = refl
  publish-put k v ((j, u) ∷ staged) dest d = elim (Bool-cases (text_eq j k)) [
    | inr n ↦ rw n (publish-put k v staged (put j u dest) d.1)
    | inl e ↦ rw e (
        subst (λ i. publish (put j v dest) staged ≡ put i v (publish (put j u dest) staged))
          ((text_eq_iff j k).0 e) (publish-put_same j u v staged dest d.0))
  ]

  abbrev over :
      Option (List (StoredMetric F))
      → Option (List (StoredMetric F))
      → Option (List (StoredMetric F))
  over (some b) o = some b
  over none o = o

  find-absent : (k : Text) (m : Buffers F) → has_key k m ≡ false → find k m ≡ none
  unfolding find has_key
  find-absent k [] h = refl
  find-absent k ((j, u) ∷ m) h = ground (arith, find-absent k m)

  find-publish :
      (k : Text) (staged dest : Buffers F)
      → DistinctKeys staged
      → find k (publish dest staged) ≡ over (find k staged) (find k dest)
  unfolding publish find
  find-publish k [] dest d = refl
  find-publish k ((j, u) ∷ staged) dest d =
      find-publish k staged (put j u dest) d.1 ∙ elim (Bool-cases (text_eq j k)) [
        | inr n ↦ rw (find-put j k u dest, n)
        | inl e ↦ rw (
          find-put j k u dest,
          e,
          find-absent k staged (subst (λ i. has_key i staged ≡ false) ((text_eq_iff j k).0 e) d.0),
        )
      ]

  staged_or_current_lem :
      (buffers staged : Buffers F) (name : Text)
      → DistinctKeys staged
      → staged_or_current buffers staged name ≡ buffer_or_empty (find name (publish buffers staged))
  staged_or_current_lem buffers staged name d =
      rw (find-publish name staged buffers d) (ground arith)

  -- The metrics inserted one after the other where the buffers are; `id` is the last event ID.
  unfoldable pub insert_metrics : ℕ → Text → Buffers F → List (Metric F) → ℕ → Buffers F
  insert_metrics capacity client buffers [] id = buffers
  insert_metrics capacity client buffers (m ∷ ms) id =
      insert_metrics capacity client
        (put m.name
          (insert_bounded_metric (buffer_or_empty (find m.name buffers)) (claim client m (suc id))
            capacity)
          buffers)
        ms (suc id)

  publish-stage :
      (capacity : ℕ) (client : Text) (buffers : Buffers F) (ms : List (Metric F)) (id : ℕ)
      (staged : Buffers F)
      → DistinctKeys staged
      → publish buffers (stage capacity client buffers staged ms id)
        ≡ insert_metrics capacity client (publish buffers staged) ms id
  unfolding stage insert_metrics
  publish-stage capacity client buffers [] id staged d = refl
  publish-stage capacity client buffers (m ∷ ms) id staged d =
      publish-stage capacity client buffers ms (suc id)
        (stage_metric capacity client buffers staged m (suc id))
        (DistinctKeys-put m.name _ staged d)
      ∙ ap (λ b. insert_metrics capacity client b ms (suc id))
          (publish-put m.name _ staged buffers d
            ∙ ap
                (λ b.
                  put m.name (insert_bounded_metric b (claim client m (suc id)) capacity)
                    (publish buffers staged))
                (staged_or_current_lem buffers staged m.name d))

  -- Behind its guards `commit_batch`, which copies the buffers that it needs, inserts into the copies
  -- and publishes those, leaves the store that inserting each metric directly into the published
  -- buffers leaves, with the batch ID recorded and the event counter advanced by the metrics.
  pub commit_metrics_in_place :
      (b : MetricBatch F) (s : Store F)
      → commit_metrics b s ≡ record s {
        metric_buffers =
            insert_metrics s.capacity_per_metric b.client_id s.metric_buffers b.metrics
              s.current_event_id;
        committed_batch_ids = b.batch_id ∷ s.committed_batch_ids;
        current_event_id = s.current_event_id + length b.metrics;
      }
  unfolding commit_metrics
  commit_metrics_in_place b s = rw (
      publish-stage s.capacity_per_metric b.client_id s.metric_buffers b.metrics s.current_event_id
        [] tt)
