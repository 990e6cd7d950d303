-- ===== src/TimeSeriesStore/Commit/Invariant.antt =====
-- What holds of the store of in_memory_time_series_store.cpp after any commits.
use pulse_mesh.Base.{ℕ, ◌-◌, ◌<◌, ◌≤◌, refl, sym, subst, List, [], ◌∷◌, arith, length}
use pulse_mesh.Base.Double.{Double}
use pulse_mesh.Wire.{MetricBatch}
use pulse_mesh.TimeSeriesStore.{Store, new, max_int64}
use pulse_mesh.TimeSeriesStore.Commit.{commit_metrics, commit_batch, commit_all}
use pulse_mesh.TimeSeriesStore.Commit.Cases.{commit_cases}
use pulse_mesh.TimeSeriesStore.Commit.InPlace.{commit_metrics_in_place}
use pulse_mesh.TimeSeriesStore.Commit.Samples.{AreBuffers, insert_metrics-AreBuffers}

module _ {ℓ} {F : Type ℓ} where
  pub record IsValid (s : Store F) : Type ℓ where
    pub has_room : 0 < s.capacity_per_metric
    pub buffers : AreBuffers s.capacity_per_metric s.current_event_id s.metric_buffers
    pub fits : s.current_event_id ≤ max_int64

  commit_metrics-IsValid :
      (b : MetricBatch F) (s : Store F)
      → length b.metrics ≤ max_int64 - s.current_event_id
      → IsValid s
      → IsValid (commit_metrics b s)
  commit_metrics-IsValid b s h v = subst IsValid (sym (commit_metrics_in_place b s)) (record {
    has_room = v.has_room;
    buffers =
        insert_metrics-AreBuffers s.capacity_per_metric b.client_id b.metrics s.metric_buffers
          s.current_event_id v.buffers;
    fits = let f = v.fits in omega arith;
  })

  pub new-IsValid : (capacity : ℕ) → IsValid (new {F = F} capacity)
  unfolding new
  new-IsValid capacity = record {
    has_room = ground arith;
    buffers = record {
      distinct = tt;
      buffers = tt;
      unique = λ i. omega arith;
      fresh = λ i h. refl;
    };
    fits = omega arith;
  }

module _ {ℓ} {F : Type ℓ} ⦃d : Double F⦄ where
  pub commit_batch-IsValid :
      (b : MetricBatch F) (s : Store F) → IsValid s → IsValid (commit_batch b s).1
  commit_batch-IsValid b s v =
      commit_cases (λ r. IsValid r.1) b s (λ e h. v) (λ h o. v) (λ h o f. v)
        (λ h o room. commit_metrics-IsValid b s room v)

  pub commit_all-IsValid :
      (bs : List (MetricBatch F)) (s : Store F) → IsValid s → IsValid (commit_all bs s)
  unfolding commit_all
  commit_all-IsValid [] s v = v
  commit_all-IsValid (b ∷ bs) s v =
      commit_all-IsValid bs (commit_batch b s).1 (commit_batch-IsValid b s v)

  -- After any sequence of `commit_batch` calls on a new store, of any capacity: each metric name has
  -- one buffer, sorted strictly by timestamp and event ID, within the capacity, that holds samples of
  -- that name alone; no event ID occurs twice in the store, each is positive and at most the current
  -- one, and that is in the range of `int64_t`.
  pub commit_all-new-IsValid :
      (capacity : ℕ) (bs : List (MetricBatch F)) → IsValid (commit_all bs (new capacity))
  commit_all-new-IsValid capacity bs = commit_all-IsValid bs (new capacity) (new-IsValid capacity)
