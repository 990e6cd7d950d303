-- ===== src/TimeSeriesStore/Commit/Snapshot.antt =====
-- A store of in_memory_time_series_store.cpp seen from a later one: later commits have higher event IDs.
use pulse_mesh.Base.{
  ℕ, suc, ◌<◌, ◌≤◌, ◌≡◌, refl, sym, ap, subst, ◌∙◌, inl, inr, true, false, Bool, Text, List, [],
  ◌∷◌, arith, leb, ltb, text_eq, text_eq_iff, length, keep, All, Bool-cases,
}
use pulse_mesh.Base.Double.{Double}
use pulse_mesh.Base.Maps.{find, put, find-put}
use pulse_mesh.Wire.{Metric, MetricBatch}
use pulse_mesh.TimeSeriesStore.{StoredMetric, Buffers, Store}
use pulse_mesh.TimeSeriesStore.Buffer.{key_lt, key_of, insert_upper, insert_bounded_metric}
use pulse_mesh.TimeSeriesStore.Buffer.Order.{
  Sorted, retain, insert_bounded_metric_lem, length-insert_upper,
}
use pulse_mesh.TimeSeriesStore.Commit.{
  claim, buffer_or_empty, commit_metrics, commit_batch, commit_all,
}
use pulse_mesh.TimeSeriesStore.Commit.Cases.{commit_cases}
use pulse_mesh.TimeSeriesStore.Commit.InPlace.{insert_metrics, commit_metrics_in_place}
use pulse_mesh.TimeSeriesStore.Commit.Samples.{IsSample, AreBuffers, All-find, insert-AreBuffers}
use pulse_mesh.TimeSeriesStore.Commit.Invariant.{IsValid, commit_batch-IsValid}

module _ {ℓ} {F : Type ℓ} where
  abbrev pub buffer_of : Text → Store F → List (StoredMetric F)
  buffer_of name s = buffer_or_empty (find name s.metric_buffers)

  abbrev pub is_covered : ℕ → StoredMetric F → Bool
  is_covered n x = leb x.event_id n

  -- Unless the buffer is full now, its samples up to event `n` are those of the old buffer.
  abbrev pub Keeps : ℕ → ℕ → List (StoredMetric F) → List (StoredMetric F) → Type ℓ
  Keeps capacity n old b = length b < capacity → keep (is_covered n) b ≡ old

  keep-insert_upper :
      (n : ℕ) (s : StoredMetric F) (xs : List (StoredMetric F))
      → n < s.event_id
      → keep (is_covered n) (insert_upper s xs) ≡ keep (is_covered n) xs
  unfolding insert_upper
  keep-insert_upper n s [] h = let e : leb s.event_id n ≡ false = ground arith in rw e refl
  keep-insert_upper n s (x ∷ xs) h =
      let e : leb s.event_id n ≡ false = ground arith in
      elim (Bool-cases (key_lt (key_of s) (key_of x))) [
        | inl first ↦ rw (first, e) refl
        | inr later ↦ elim (Bool-cases (leb x.event_id n)) [
          | inl old ↦ rw (later, old) (ap (◌∷◌ x) (keep-insert_upper n s xs h))
          | inr new ↦ rw (later, new) (keep-insert_upper n s xs h)
        ]
      ]

  retain-Keeps :
      (capacity n : ℕ) (old b inserted : List (StoredMetric F))
      → length b ≤ capacity
      → length inserted ≡ suc (length b)
      → keep (is_covered n) inserted ≡ keep (is_covered n) b
      → Keeps capacity n old b
      → Keeps capacity n old (retain capacity inserted)
  retain-Keeps capacity n old b [] h l e k = absurd (omega (arith, l))
  retain-Keeps capacity n old b (x ∷ xs) h l e k =
      elim (Bool-cases (ltb capacity (suc (length xs)))) [
        | inl full ↦ rw full (λ r. absurd (ground arith))
        | inr room ↦ rw room (λ r. e ∙ k (ground arith))
      ]

  insert-Keeps :
      (capacity n : ℕ) (old b : List (StoredMetric F)) (s : StoredMetric F)
      → n < s.event_id
      → Sorted b
      → length b ≤ capacity
      → Keeps capacity n old b
      → Keeps capacity n old (insert_bounded_metric b s capacity)
  insert-Keeps capacity n old b s g d h k = rw (insert_bounded_metric_lem b s capacity d) (
      retain-Keeps capacity n old b (insert_upper s b) h (length-insert_upper s b)
        (keep-insert_upper n s b g) k)

  abbrev AllKeep : ℕ → ℕ → Buffers F → Buffers F → Type ℓ
  AllKeep capacity n old m =
      (name : Text)
      → Keeps capacity n (buffer_or_empty (find name old)) (buffer_or_empty (find name m))

  put-AllKeep :
      (capacity n last : ℕ) (client : Text) (m : Metric F) (old buffers : Buffers F)
      → n ≤ last
      → AreBuffers capacity last buffers
      → AllKeep capacity n old buffers
      → AllKeep capacity n old (
          put m.name
            (insert_bounded_metric
              (buffer_or_empty (find m.name buffers))
              (claim client m (suc last))
              capacity)
            buffers)
  put-AllKeep capacity n last client m old buffers h v k name =
      let s = claim client m (suc last) in
      elim (Bool-cases (text_eq m.name name)) [
        | inr other ↦ rw (find-put m.name name _ buffers, other) (k name)
        | inl same ↦
            rw (find-put m.name name _ buffers, same)
              (subst
                (λ i.
                  Keeps capacity n (buffer_or_empty (find name old))
                    (insert_bounded_metric (buffer_or_empty (find i buffers)) s capacity))
                (sym ((text_eq_iff m.name name).0 same))
                (let b = All-find capacity last name buffers v.buffers in
                  insert-Keeps capacity n _ (buffer_or_empty (find name buffers)) s
                    (omega (arith, h)) b.sorted b.bounded (k name)))
      ]

  insert_metrics-AllKeep :
      (capacity n last : ℕ) (client : Text) (ms : List (Metric F)) (old buffers : Buffers F)
      → n ≤ last
      → AreBuffers capacity last buffers
      → AllKeep capacity n old buffers
      → AllKeep capacity n old (insert_metrics capacity client buffers ms last)
  unfolding insert_metrics
  insert_metrics-AllKeep capacity n last client [] old buffers h v k = k
  insert_metrics-AllKeep capacity n last client (m ∷ ms) old buffers h v k =
      insert_metrics-AllKeep capacity n (suc last) client ms old _ (omega (arith, h))
        (insert-AreBuffers capacity last client m buffers v)
        (put-AllKeep capacity n last client m old buffers h v k)

  -- `t` is a later state of `s`.
  pub record IsLaterStore (s t : Store F) : Type ℓ where
    pub capacity : t.capacity_per_metric ≡ s.capacity_per_metric
    pub later : s.current_event_id ≤ t.current_event_id
    pub kept : AllKeep t.capacity_per_metric s.current_event_id s.metric_buffers t.metric_buffers

  commit_metrics-IsLaterStore :
      (b : MetricBatch F) (s t : Store F)
      → IsValid t
      → IsLaterStore s t
      → IsLaterStore s (commit_metrics b t)
  commit_metrics-IsLaterStore b s t v l =
      subst (IsLaterStore s) (sym (commit_metrics_in_place b t)) (record {
        capacity = l.capacity;
        later = let h = l.later in omega arith;
        kept =
            insert_metrics-AllKeep t.capacity_per_metric s.current_event_id t.current_event_id
              b.client_id b.metrics s.metric_buffers t.metric_buffers l.later v.buffers l.kept;
      })

  keep-is_covered :
      (name : Text) (n : ℕ) (xs : List (StoredMetric F))
      → All (IsSample name n) xs
      → keep (is_covered n) xs ≡ xs
  keep-is_covered name n [] a = refl
  keep-is_covered name n (x ∷ xs) a =
      let h = a.0.committed_before in
      let e : leb x.event_id n ≡ true = ground arith in
      rw e (ap (◌∷◌ x) (keep-is_covered name n xs a.1))

  pub IsLaterStore-itself : (s : Store F) → IsValid s → IsLaterStore s s
  IsLaterStore-itself s v = record {
    capacity = refl;
    later = omega arith;
    kept = λ name r.
        keep-is_covered name s.current_event_id _
          (All-find s.capacity_per_metric s.current_event_id name s.metric_buffers
            v.buffers.buffers).samples;
  }

module _ {ℓ} {F : Type ℓ} ⦃d : Double F⦄ where
  commit_batch-IsLaterStore :
      (b : MetricBatch F) (s t : Store F)
      → IsValid t
      → IsLaterStore s t
      → IsLaterStore s (commit_batch b t).1
  commit_batch-IsLaterStore b s t v l =
      commit_cases (λ r. IsLaterStore s r.1) b t (λ e h. l) (λ h o. l) (λ h o f. l)
        (λ h o room. commit_metrics-IsLaterStore b s t v l)

  pub commit_all-IsLaterStore :
      (bs : List (MetricBatch F)) (s t : Store F)
      → IsValid t
      → IsLaterStore s t
      → IsLaterStore s (commit_all bs t)
  unfolding commit_all
  commit_all-IsLaterStore [] s t v l = l
  commit_all-IsLaterStore (b ∷ bs) s t v l =
      commit_all-IsLaterStore bs s (commit_batch b t).1 (commit_batch-IsValid b t v)
        (commit_batch-IsLaterStore b s t v l)
