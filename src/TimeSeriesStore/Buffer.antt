-- ===== src/TimeSeriesStore/Buffer.antt =====
-- The buffer of one metric: `insert_bounded_metric` of in_memory_time_series_store.cpp. The front of
-- the deque is the head of the list.
pub mod Retention
pub mod Order
pub mod Newest
use pulse_mesh.Base.{
  ℕ, Bool, true, not, ◌&&◌, ◌||◌, ℤ, ltb_ℤ, List, [], ◌∷◌, ◌++◌, Option, none, some, ltb,
  if◌then◌else◌, length, drop,
}
use pulse_mesh.TimeSeriesStore.{StoredMetric}

-- `operator<` of `std::pair`, on the timestamp and then the event ID.
abbrev pub Key : Type 0
Key = ℤ × ℕ

abbrev pub key_lt : Key → Key → Bool
key_lt (s, i) (t, j) = ltb_ℤ s t || (not (ltb_ℤ t s) && ltb i j)

module _ {ℓ} {F : Type ℓ} where
  abbrev pub key_of : StoredMetric F → Key
  key_of s = (s.metric.timestamp_ms, s.event_id)

  abbrev pub last? : List (StoredMetric F) → Option (StoredMetric F)
  last? [] = none
  last? (x ∷ xs) = elim (last? xs) [ none ↦ some x | some y ↦ some y ]

  -- `insert` at `upper_bound`: before the first element with a greater key.
  unfoldable pub insert_upper : StoredMetric F → List (StoredMetric F) → List (StoredMetric F)
  insert_upper s [] = s ∷ []
  insert_upper s (x ∷ xs) =
      if key_lt (key_of s) (key_of x) then s ∷ x ∷ xs else x ∷ insert_upper s xs

  abbrev goes_last : Key → Option (StoredMetric F) → Bool
  goes_last k none = true
  goes_last k (some b) = not (key_lt k (key_of b))

  unfoldable pub insert_bounded_metric :
      List (StoredMetric F) → StoredMetric F → ℕ → List (StoredMetric F)
  unfolding insert_upper
  insert_bounded_metric buffer stored capacity =
      let inserted =
        if goes_last (key_of stored) (last? buffer)
        then buffer ++ (stored ∷ [])
        else insert_upper stored buffer in
      if ltb capacity (length inserted) then drop 1 inserted else inserted
