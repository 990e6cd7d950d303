-- ===== src/TimeSeriesStore/Commit/Retries.antt =====
-- Batches that come to `commit_batch` of in_memory_time_series_store.cpp more than once.
use pulse_mesh.Base.{
  ◌-◌, ◌<◌, ◌≤◌, ◌≡◌, refl, sym, ap, ◌∙◌, ◌⊎◌, inl, inr, Bool, true, not, List, [], ◌∷◌, some,
  arith, text_eq, text_eq_iff, text_eq_refl, length, keep, All, All-keep, Bool-cases,
}
use pulse_mesh.Base.Double.{Double}
use pulse_mesh.Wire.{MetricBatch}
use pulse_mesh.TimeSeriesStore.{TimeSeriesStoreError, Store, max_int64}
use pulse_mesh.TimeSeriesStore.Commit.{
  contains, validate_batch, commit_metrics, commit_batch, commit_all,
}
use pulse_mesh.TimeSeriesStore.Commit.Cases.{commit_cases}
use pulse_mesh.TimeSeriesStore.Commit.Once.{contains-commit_batch}

module _ {ℓ} {F : Type ℓ} where
  abbrev is_other : MetricBatch F → MetricBatch F → Bool
  is_other b x = not (text_eq x.batch_id b.batch_id)

  -- The first delivery of each batch ID.
  pub first_deliveries : List (MetricBatch F) → List (MetricBatch F)
  first_deliveries [] = []
  first_deliveries (b ∷ bs) = b ∷ keep (is_other b) (first_deliveries bs)

  -- Batches with the same ID are the same batch, as an agent retries it unchanged.
  abbrev pub AreRetries : List (MetricBatch F) → Type ℓ
  AreRetries [] = Unit
  AreRetries (b ∷ bs) = All (λ x. x.batch_id ≡ b.batch_id → x ≡ b) bs × AreRetries bs

  All-first_deliveries {κ} :
      (P : MetricBatch F → Type κ) (bs : List (MetricBatch F))
      → All P bs
      → All P (first_deliveries bs)
  unfolding first_deliveries
  All-first_deliveries P [] a = tt
  All-first_deliveries P (b ∷ bs) a =
      (a.0, All-keep P (is_other b) (first_deliveries bs) (All-first_deliveries P bs a.1))

module _ {ℓ} {F : Type ℓ} ⦃d : Double F⦄ where
  -- To commit the batch again changes nothing: it is not valid, it is recorded, or there are too few
  -- event IDs left for it.
  abbrev IsSettled : MetricBatch F → Store F → Type 0
  IsSettled b s =
      ((e : TimeSeriesStoreError) × (validate_batch b ≡ some e))
      ⊎ ((contains s.committed_batch_ids b.batch_id ≡ true)
          ⊎ (max_int64 - s.current_event_id < length b.metrics))

  commit_batch-IsSettled : (b : MetricBatch F) (s : Store F) → IsSettled b (commit_batch b s).1
  commit_batch-IsSettled b s =
      commit_cases (λ r. IsSettled b r.1) b s (λ e h. inl (e, h)) (λ h k. inr (inl k))
        (λ h k full. inr (inr full))
        (λ h k room.
          inr (inl (unfold commit_metrics contains in rw (text_eq_refl b.batch_id) refl)))

  current_grows :
      (c : MetricBatch F) (s : Store F) → s.current_event_id ≤ (commit_batch c s).1.current_event_id
  current_grows c s =
      commit_cases (λ r. s.current_event_id ≤ r.1.current_event_id) c s (λ e h. omega arith)
        (λ h k. omega arith) (λ h k full. omega arith)
        (λ h k room. unfold commit_metrics in omega arith)

  IsSettled-commit_batch :
      (b c : MetricBatch F) (s : Store F) → IsSettled b s → IsSettled b (commit_batch c s).1
  IsSettled-commit_batch b c s (inl h) = inl h
  IsSettled-commit_batch b c s (inr (inl h)) = inr (inl (contains-commit_batch b.batch_id c s h))
  IsSettled-commit_batch b c s (inr (inr h)) = inr (inr (omega (arith, h, current_grows c s)))

  commit_settled : (b : MetricBatch F) (s : Store F) → IsSettled b s → (commit_batch b s).1 ≡ s
  commit_settled b s =
      commit_cases (λ r. IsSettled b s → r.1 ≡ s) b s (λ e h v. refl) (λ h k v. refl)
        (λ h k full v. refl)
        (λ h k room v. absurd (elim v [
          | inl (e, bad) ↦ cc
          | inr w ↦ elim w [ inl old ↦ cc | inr full ↦ omega (arith, room, full) ]
        ]))

  -- Later deliveries of a settled batch make no difference.
  commit_all-keep :
      (b : MetricBatch F) (xs : List (MetricBatch F)) (s : Store F)
      → IsSettled b s
      → All (λ x. x.batch_id ≡ b.batch_id → x ≡ b) xs
      → commit_all (keep (is_other b) xs) s ≡ commit_all xs s
  unfolding commit_all
  commit_all-keep b [] s v a = refl
  commit_all-keep b (x ∷ xs) s v a = elim (Bool-cases (text_eq x.batch_id b.batch_id)) [
    | inl same ↦
        let e = a.0 ((text_eq_iff x.batch_id b.batch_id).0 same) in
        let unchanged : (commit_batch x s).1 ≡ s =
          ap (λ y. (commit_batch y s).1) e ∙ commit_settled b s v in
        rw same (commit_all-keep b xs s v a.1 ∙ ap (commit_all xs) (sym unchanged))
    | inr other ↦
        rw other (commit_all-keep b xs (commit_batch x s).1 (IsSettled-commit_batch b x s v) a.1)
  ]

  -- Whatever retries there are between the batches: where batches with the same ID are the same
  -- batch, the store is in the end as if each had been delivered once, at its first delivery.
  pub commit_all-first_deliveries :
      (bs : List (MetricBatch F)) (s : Store F)
      → AreRetries bs
      → commit_all bs s ≡ commit_all (first_deliveries bs) s
  unfolding commit_all first_deliveries
  commit_all-first_deliveries [] s r = refl
  commit_all-first_deliveries (b ∷ bs) s r =
      let next = (commit_batch b s).1 in
      commit_all-first_deliveries bs next r.1
      ∙ sym (
          commit_all-keep b (first_deliveries bs) next (commit_batch-IsSettled b s)
            (All-first_deliveries _ bs r.0))
