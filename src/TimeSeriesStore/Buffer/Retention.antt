-- ===== src/TimeSeriesStore/Buffer/Retention.antt =====
-- What `insert_bounded_metric` of in_memory_time_series_store.cpp keeps, and what it evicts.
use mathlib.Core.List.{Perm}
use mathlib.Core.List.Perm
use pulse_mesh.Base.{
  ℕ, suc, ◌<◌, ◌≤◌, ◌≡◌, ◌⊎◌, inl, inr, List, [], ◌∷◌, arith, ltb, length, All, Bool-cases,
}
use pulse_mesh.TimeSeriesStore.{StoredMetric}
use pulse_mesh.TimeSeriesStore.Buffer.{key_lt, key_of, insert_upper, insert_bounded_metric}
use pulse_mesh.TimeSeriesStore.Buffer.Order.{
  Before, Sorted, Apart, retain, insert_upper-Sorted, length-insert_upper,
  insert_bounded_metric_lem, insert_bounded_metric-Sorted, length-insert_bounded_metric,
}

module _ {ℓ} {F : Type ℓ} where
  pub insert_upper-perm :
      (s : StoredMetric F) (xs : List (StoredMetric F)) → Perm (insert_upper s xs) (s ∷ xs)
  unfolding insert_upper
  insert_upper-perm s [] = Perm.refl (s ∷ [])
  insert_upper-perm s (x ∷ xs) = elim (Bool-cases (key_lt (key_of s) (key_of x))) [
    | inl h ↦ rw h (Perm.refl (s ∷ x ∷ xs))
    | inr h ↦ rw h (Perm.trans (Perm.cons x (insert_upper-perm s xs)) (Perm.swap s x xs))
  ]

  -- The buffer `r` after `s` came into `b`: nothing else is lost while there is room, and otherwise
  -- exactly the sample with the least key.
  pub record Inserted (b : List (StoredMetric F)) (s : StoredMetric F) (capacity : ℕ)
      (r : List (StoredMetric F)) : Type ℓ where
    pub sorted : Sorted r
    pub bounded : length r ≤ capacity
    pub contents :
        ((length b < capacity) × Perm r (s ∷ b))
        ⊎ ((length b ≡ capacity) × ((x : StoredMetric F) × Perm (x ∷ r) (s ∷ b) × All (Before x) r))

  evicted :
      (capacity n : ℕ) (ys zs : List (StoredMetric F))
      → length ys ≡ suc n
      → n ≤ capacity
      → Sorted ys
      → Perm ys zs
      → ((n < capacity) × Perm (retain capacity ys) zs)
        ⊎ ((n ≡ capacity)
            × ((x : StoredMetric F) × Perm (x ∷ retain capacity ys) zs
                × All (Before x) (retain capacity ys)))
  evicted capacity n [] zs e h d p = absurd (omega arith)
  evicted capacity n (y ∷ ys) zs e h d p = elim (Bool-cases (ltb capacity (suc (length ys)))) [
    | inl full ↦ rw full (inr (ground arith, (y, p, d.0)))
    | inr room ↦ rw room (inl (ground arith, p))
  ]

  -- A sample with a new key goes into a sorted buffer within its bound so that the buffer is sorted
  -- and within its bound again. While there is room, the buffer gains just that sample. A full buffer
  -- gives up the sample with the least key, old or new, and nothing else.
  pub insert_bounded_metric-Inserted :
      (b : List (StoredMetric F)) (s : StoredMetric F) (capacity : ℕ)
      → Sorted b
      → Apart s b
      → length b ≤ capacity
      → Inserted b s capacity (insert_bounded_metric b s capacity)
  insert_bounded_metric-Inserted b s capacity d a h = record {
    sorted = insert_bounded_metric-Sorted b s capacity d a;
    bounded = length-insert_bounded_metric b s capacity d h;
    contents = rw (insert_bounded_metric_lem b s capacity d) (
        evicted capacity (length b) (insert_upper s b) (s ∷ b) (length-insert_upper s b) h
          (insert_upper-Sorted s b a d) (insert_upper-perm s b));
  }
