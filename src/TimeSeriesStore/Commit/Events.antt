-- ===== src/TimeSeriesStore/Commit/Events.antt =====
-- How often an event ID occurs in the buffers of in_memory_time_series_store.cpp.
use pulse_mesh.Base.{
  ℕ, suc, ◌+◌, ◌≤◌, ◌≡◌, refl, inl, inr, Text, List, [], ◌∷◌, arith, ltb, text_eq, ◌==◌,
  if◌then◌else◌, length, Bool-cases,
}
use pulse_mesh.Base.Maps.{find, put}
use pulse_mesh.TimeSeriesStore.{StoredMetric, Buffers}
use pulse_mesh.TimeSeriesStore.Buffer.{key_lt, key_of, insert_upper, insert_bounded_metric}
use pulse_mesh.TimeSeriesStore.Buffer.Order.{Sorted, retain, insert_bounded_metric_lem}
use pulse_mesh.TimeSeriesStore.Commit.{buffer_or_empty}

module _ {ℓ} {F : Type ℓ} where
  abbrev pub is_event : ℕ → StoredMetric F → ℕ
  is_event i x = if x.event_id == i then 1 else 0

  abbrev pub count : ℕ → List (StoredMetric F) → ℕ
  count i [] = 0
  count i (x ∷ xs) = is_event i x + count i xs

  abbrev pub count_all : ℕ → Buffers F → ℕ
  count_all i [] = 0
  count_all i ((name, b) ∷ m) = count i b + count_all i m

  count-insert_upper :
      (i : ℕ) (s : StoredMetric F) (xs : List (StoredMetric F))
      → count i (insert_upper s xs) ≡ is_event i s + count i xs
  unfolding insert_upper
  count-insert_upper i s [] = refl
  count-insert_upper i s (x ∷ xs) = elim (Bool-cases (key_lt (key_of s) (key_of x))) [
    | inl h ↦ rw h
    | inr h ↦ rw h (omega (arith, count-insert_upper i s xs))
  ]

  count-retain :
      (i capacity : ℕ) (xs : List (StoredMetric F)) → count i (retain capacity xs) ≤ count i xs
  count-retain i capacity [] = elim (Bool-cases (ltb capacity 0)) [
    | inl h ↦ rw h (omega arith)
    | inr h ↦ rw h (omega arith)
  ]
  count-retain i capacity (x ∷ xs) = elim (Bool-cases (ltb capacity (suc (length xs)))) [
    | inl h ↦ rw h (omega arith)
    | inr h ↦ rw h (omega arith)
  ]

  pub count-insert_bounded_metric :
      (i : ℕ) (b : List (StoredMetric F)) (s : StoredMetric F) (capacity : ℕ)
      → Sorted b
      → count i (insert_bounded_metric b s capacity) ≤ is_event i s + count i b
  count-insert_bounded_metric i b s capacity d =
      rw (insert_bounded_metric_lem b s capacity d)
        (omega (arith, count-retain i capacity (insert_upper s b), count-insert_upper i s b))

  pub count_all-put :
      (i : ℕ) (k : Text) (v : List (StoredMetric F)) (m : Buffers F)
      → count_all i (put k v m) + count i (buffer_or_empty (find k m)) ≡ count_all i m + count i v
  unfolding find put
  count_all-put i k v [] = omega arith
  count_all-put i k v ((j, u) ∷ m) = elim (Bool-cases (text_eq j k)) [
    | inl e ↦ rw e (omega arith)
    | inr n ↦ rw n (omega (arith, count_all-put i k v m))
  ]
