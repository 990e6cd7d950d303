-- ===== src/TimeSeriesStore/Log/Refinement.antt =====
-- `commit_batch` of in_memory_time_series_store.cpp against the log.
use mathlib.Core.List.Perm
use pulse_mesh.Base.{
  ℕ, suc, ◌+◌, ◌<◌, ◌≤◌, ◌≡◌, refl, sym, ap, subst, ◌∙◌, ◌⊎◌, inl, inr, true, false, Text, List, [],
  ◌∷◌, arith, text_eq, text_eq_iff, length, All, All-map, Bool, Bool-cases,
}
use pulse_mesh.Base.Double.{Double}
use pulse_mesh.Base.Maps.{find, put, find-put}
use pulse_mesh.Wire.{Metric, MetricBatch}
use pulse_mesh.TimeSeriesStore.{StoredMetric, Buffers, Store, new, max_int64}
use pulse_mesh.TimeSeriesStore.Buffer.{insert_upper, insert_bounded_metric}
use pulse_mesh.TimeSeriesStore.Buffer.Order.{Before, Apart, All-insert_upper, insert_upper-Sorted}
use pulse_mesh.TimeSeriesStore.Buffer.Retention.{insert_upper-perm}
use pulse_mesh.TimeSeriesStore.Buffer.Newest.{insert_bounded_metric-newest}
use pulse_mesh.TimeSeriesStore.Commit.{
  claim, buffer_or_empty, contains, commit_metrics, commit_batch, commit_all,
}
use pulse_mesh.TimeSeriesStore.Commit.Cases.{commit_cases}
use pulse_mesh.TimeSeriesStore.Commit.InPlace.{insert_metrics, commit_metrics_in_place}
use pulse_mesh.TimeSeriesStore.Log.{
  Log, empty, written, write, is_named, IsView, Refines, Commits, refused, known, full,
  written_down, Logs, done, next, answers,
}

module _ {ℓ} {F : Type ℓ} where
  newer-Apart :
      (n : ℕ) (s : StoredMetric F) (xs : List (StoredMetric F))
      → s.event_id ≡ suc n
      → All (λ x. x.event_id ≤ n) xs
      → Apart s xs
  newer-Apart n s xs e a =
      All-map (λ x. x.event_id ≤ n) (λ x. (Before s x) ⊎ (Before x s)) xs (λ x h. ground arith) a

  IsView-other :
      (capacity : ℕ) (name : Text) (s : StoredMetric F) (samples b : List (StoredMetric F))
      → is_named name s ≡ false
      → IsView capacity name samples b
      → IsView capacity name (s ∷ samples) b
  IsView-other capacity name s samples b e v = record {
    whole = v.whole;
    contents = rw e v.contents;
    sorted = v.sorted;
    numbered =
        All-map (λ x. x.event_id ≤ length samples) (λ x. x.event_id ≤ suc (length samples)) v.whole
          (λ x h. omega (arith, h)) v.numbered;
    kept = v.kept;
  }

  IsView-insert :
      (capacity : ℕ) (name : Text) (s : StoredMetric F) (samples b : List (StoredMetric F))
      → 0 < capacity
      → is_named name s ≡ true
      → s.event_id ≡ suc (length samples)
      → IsView capacity name samples b
      → IsView capacity name (s ∷ samples) (insert_bounded_metric b s capacity)
  IsView-insert capacity name s samples b h e i v = record {
    whole = insert_upper s v.whole;
    contents = rw e (Perm.trans (insert_upper-perm s v.whole) (Perm.cons s v.contents));
    sorted =
        insert_upper-Sorted s v.whole (newer-Apart (length samples) s v.whole i v.numbered)
          v.sorted;
    numbered =
        All-insert_upper (λ x. x.event_id ≤ suc (length samples)) s v.whole (omega (arith, i))
          (All-map (λ x. x.event_id ≤ length samples) (λ x. x.event_id ≤ suc (length samples))
            v.whole (λ x k. omega (arith, k)) v.numbered);
    kept =
        ap (λ b. insert_bounded_metric b s capacity) v.kept
        ∙ insert_bounded_metric-newest capacity s v.whole h v.sorted;
  }

  abbrev Views : ℕ → List (StoredMetric F) → Buffers F → Type ℓ
  Views capacity samples m =
      (name : Text) → IsView capacity name samples (buffer_or_empty (find name m))

  Views-put :
      (capacity : ℕ) (client : Text) (m : Metric F) (samples : List (StoredMetric F))
      (buffers : Buffers F)
      → 0 < capacity
      → Views capacity samples buffers
      → let s = claim client m (suc (length samples)) in
        Views capacity (s ∷ samples) (
          put m.name
            (insert_bounded_metric (buffer_or_empty (find m.name buffers)) s capacity)
            buffers)
  Views-put capacity client m samples buffers h v name =
      let s = claim client m (suc (length samples)) in
      elim (Bool-cases (text_eq m.name name)) [
        | inl same ↦
            rw (find-put m.name name _ buffers, same)
              (subst
                (λ k.
                  IsView capacity name (s ∷ samples)
                    (insert_bounded_metric (buffer_or_empty (find k buffers)) s capacity))
                (sym ((text_eq_iff m.name name).0 same))
                (IsView-insert capacity name s samples _ h same refl (v name)))
        | inr other ↦
            rw (find-put m.name name _ buffers, other)
              (IsView-other capacity name s samples _ other (v name))
      ]

  Views-insert_metrics :
      (capacity : ℕ) (client : Text) (ms : List (Metric F)) (samples : List (StoredMetric F))
      (buffers : Buffers F)
      → 0 < capacity
      → Views capacity samples buffers
      → Views capacity
          (written client ms samples)
          (insert_metrics capacity client buffers ms (length samples))
  unfolding insert_metrics
  Views-insert_metrics capacity client [] samples buffers h v = v
  Views-insert_metrics capacity client (m ∷ ms) samples buffers h v =
      Views-insert_metrics capacity client ms (claim client m (suc (length samples)) ∷ samples) _ h
        (Views-put capacity client m samples buffers h v)

  length-written :
      (client : Text) (ms : List (Metric F)) (samples : List (StoredMetric F))
      → length (written client ms samples) ≡ length samples + length ms
  length-written client [] samples = omega arith
  length-written client (m ∷ ms) samples = omega (arith, length-written client ms _)

  commit_metrics-Refines :
      (b : MetricBatch F) (s : Store F) (l : Log F)
      → length l.samples + length b.metrics ≤ max_int64
      → Refines s l
      → Refines (commit_metrics b s) (write b l)
  commit_metrics-Refines b s l fit v =
      subst (λ t. Refines t (write b l)) (sym (commit_metrics_in_place b s))
        (record {
          has_room = v.has_room;
          buffers =
              subst
                (λ n.
                  Views s.capacity_per_metric (write b l).samples
                    (insert_metrics s.capacity_per_metric b.client_id s.metric_buffers b.metrics n))
                (sym v.events)
                (Views-insert_metrics s.capacity_per_metric b.client_id b.metrics l.samples
                  s.metric_buffers v.has_room v.buffers);
          ids = ap (◌∷◌ b.batch_id) v.ids;
          events =
              let e = v.events in
              let n = length-written b.client_id b.metrics l.samples in omega arith;
          fits = let n = length-written b.client_id b.metrics l.samples in omega (arith, fit);
        })

  new-Refines : (capacity : ℕ) → Refines (new {F = F} capacity) empty
  unfolding new find
  new-Refines capacity = record {
    has_room = ground arith;
    buffers = λ name. record {
      whole = [];
      contents = Perm.refl [];
      sorted = tt;
      numbered = tt;
      kept = refl;
    };
    ids = refl;
    events = refl;
    fits = omega arith;
  }

module _ {ℓ} {F : Type ℓ} ⦃d : Double F⦄ where
  commit_batch-Commits :
      (b : MetricBatch F) (s : Store F) (l : Log F)
      → Refines s l
      → (k : Log F) × Commits b l (commit_batch b s).0 k × Refines (commit_batch b s).1 k
  commit_batch-Commits b s l v =
      commit_cases (λ r. (k : Log F) × Commits b l r.0 k × Refines r.1 k) b s
        (λ e h. (l, refused e h, v)) (λ h o. (l, known h (of_ids true o), v))
        (λ h o f. (l, full h (of_ids false o) (let e = v.events in omega arith), v))
        (λ h o room.
          let fit : length l.samples + length b.metrics ≤ max_int64 =
            let e = v.events in let f = v.fits in omega arith in
          (write b l, written_down h (of_ids false o) fit, commit_metrics-Refines b s l fit v))
    where
      of_ids :
          (t : Bool) → contains s.committed_batch_ids b.batch_id ≡ t → contains l.ids b.batch_id ≡ t
      of_ids t h = subst (λ i. contains i b.batch_id ≡ t) v.ids h

  commit_all-Logs :
      (bs : List (MetricBatch F)) (s : Store F) (l : Log F)
      → Refines s l
      → (k : Log F) × Logs l bs (answers bs s) k × Refines (commit_all bs s) k
  unfolding commit_all answers
  commit_all-Logs [] s l v = (l, done, v)
  commit_all-Logs (b ∷ bs) s l v =
      let (k, c, w) = commit_batch-Commits b s l v in
      let (n, cs, u) = commit_all-Logs bs (commit_batch b s).1 k w in (n, next c cs, u)

  -- Any sequence of `commit_batch` calls on a new store is a sequence of steps of a log with the same
  -- answers: a batch that is not valid is refused, one whose ID is in the log is a duplicate, one
  -- that would exceed the range of event IDs is refused, and else its samples are written down, each
  -- with its client's ID and its place in the log as event ID. What is left in the store is a view of
  -- the log: the buffer of a name is what comes last, up to the capacity, when all samples of that
  -- name that were ever written down are put in the order of timestamps and event IDs, however late
  -- they came; the recorded IDs are those of the log, and the event counter is its length.
  pub commit_all-new-Logs :
      (capacity : ℕ) (bs : List (MetricBatch F))
      → (l : Log F) × Logs empty bs (answers bs (new capacity)) l
        × Refines (commit_all bs (new capacity)) l
  commit_all-new-Logs capacity bs = commit_all-Logs bs (new capacity) empty (new-Refines capacity)
