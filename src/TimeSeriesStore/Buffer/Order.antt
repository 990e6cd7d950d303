-- ===== src/TimeSeriesStore/Buffer/Order.antt =====
-- The order and the bound of a metric's buffer under `insert_bounded_metric` of
-- in_memory_time_series_store.cpp.
use pulse_mesh.Base.{
  ℕ, suc, ◌≤◌, ◌≡◌, refl, ap, ◌⊎◌, inl, inr, true, false, List, [], ◌∷◌, ◌++◌, arith, ltb,
  if◌then◌else◌, length, drop, All, Bool-cases,
}
use pulse_mesh.TimeSeriesStore.{StoredMetric}
use pulse_mesh.TimeSeriesStore.Buffer.{
  Key, key_lt, key_of, last?, insert_upper, goes_last, insert_bounded_metric,
}

pub key_lt_trans : (k l m : Key) → key_lt k l ≡ true → key_lt l m ≡ true → key_lt k m ≡ true
key_lt_trans k l m h g = ground arith

pub key_lt_asymm : (k l : Key) → key_lt k l ≡ true → key_lt l k ≡ false
key_lt_asymm k l h = ground arith

module _ {ℓ} {F : Type ℓ} where
  -- The first key is before the second.
  abbrev pub Before : StoredMetric F → StoredMetric F → Type 0
  Before x y = key_lt (key_of x) (key_of y) ≡ true

  -- Strictly increasing by timestamp and event ID.
  abbrev pub Sorted : List (StoredMetric F) → Type 0
  Sorted [] = Unit
  Sorted (x ∷ xs) = All (Before x) xs × Sorted xs

  -- The new element has another key than each one of the list.
  abbrev pub Apart : StoredMetric F → List (StoredMetric F) → Type 0
  Apart s = All λ x. (Before s x) ⊎ (Before x s)

  pub All-insert_upper {κ} :
      (P : StoredMetric F → Type κ) (s : StoredMetric F) (xs : List (StoredMetric F))
      → P s
      → All P xs
      → All P (insert_upper s xs)
  unfolding insert_upper
  All-insert_upper P s [] p a = (p, tt)
  All-insert_upper P s (x ∷ xs) p a = elim (Bool-cases (key_lt (key_of s) (key_of x))) [
    | inl h ↦ rw h (p, a)
    | inr h ↦ rw h (a.0, All-insert_upper P s xs p a.1)
  ]

  pub Before-All :
      (s x : StoredMetric F) (xs : List (StoredMetric F))
      → Before s x
      → All (Before x) xs
      → All (Before s) xs
  Before-All s x [] h a = tt
  Before-All s x (y ∷ ys) h a =
      (key_lt_trans (key_of s) (key_of x) (key_of y) h a.0, Before-All s x ys h a.1)

  pub insert_upper-Sorted :
      (s : StoredMetric F) (xs : List (StoredMetric F))
      → Apart s xs
      → Sorted xs
      → Sorted (insert_upper s xs)
  unfolding insert_upper
  insert_upper-Sorted s [] a d = (tt, tt)
  insert_upper-Sorted s (x ∷ xs) a d = elim (Bool-cases (key_lt (key_of s) (key_of x))) [
    | inl h ↦ rw h ((h, Before-All s x xs h d.0), d)
    | inr h ↦ rw h (
      All-insert_upper (Before x) s xs (let b = a.0 in ground arith) d.0,
      insert_upper-Sorted s xs a.1 d.1,
    )
  ]

  goes_last_tail :
      (k : Key) (x : StoredMetric F) (xs : List (StoredMetric F))
      → goes_last k (last? (x ∷ xs)) ≡ true
      → goes_last k (last? xs) ≡ true
  goes_last_tail k x xs h = ground arith

  not_before_first :
      (k : Key) (x : StoredMetric F) (xs : List (StoredMetric F))
      → Sorted (x ∷ xs)
      → goes_last k (last? (x ∷ xs)) ≡ true
      → key_lt k (key_of x) ≡ false
  not_before_first k x [] d h = ground arith
  not_before_first k x (y ∷ ys) d h =
      let later : key_lt k (key_of y) ≡ false =
        not_before_first k y ys d.1 (goes_last_tail k x (y ∷ ys) h) in
      let step = d.0.0 in
      elim (Bool-cases (key_lt k (key_of x))) [
        | inr n ↦ n
        | inl n ↦ let all = key_lt_trans k (key_of x) (key_of y) n step in cc
      ]

  -- Where the new key is not before the last one, it is before none of a sorted list.
  append-insert_upper :
      (s : StoredMetric F) (xs : List (StoredMetric F))
      → Sorted xs
      → goes_last (key_of s) (last? xs) ≡ true
      → xs ++ (s ∷ []) ≡ insert_upper s xs
  unfolding insert_upper
  append-insert_upper s [] d h = refl
  append-insert_upper s (x ∷ xs) d h =
      rw (not_before_first (key_of s) x xs d h)
        (ap (◌∷◌ x) (append-insert_upper s xs d.1 (goes_last_tail (key_of s) x xs h)))

  pub length-insert_upper :
      (s : StoredMetric F) (xs : List (StoredMetric F))
      → length (insert_upper s xs) ≡ suc (length xs)
  unfolding insert_upper
  length-insert_upper s [] = refl
  length-insert_upper s (x ∷ xs) = ground (arith, length-insert_upper s xs)

  -- What is kept of a list that is at most one over the bound.
  abbrev pub retain : ℕ → List (StoredMetric F) → List (StoredMetric F)
  retain capacity xs = if ltb capacity (length xs) then drop 1 xs else xs

  -- On a sorted buffer `insert_bounded_metric`, which first looks at the end, is the insertion at the
  -- upper bound followed by the eviction of the least key where the buffer got too long.
  pub insert_bounded_metric_lem :
      (b : List (StoredMetric F)) (s : StoredMetric F) (capacity : ℕ)
      → Sorted b
      → insert_bounded_metric b s capacity ≡ retain capacity (insert_upper s b)
  unfolding insert_bounded_metric
  insert_bounded_metric_lem b s capacity d = elim (Bool-cases (goes_last (key_of s) (last? b))) [
    | inl h ↦ rw (h, append-insert_upper s b d h)
    | inr h ↦ rw h
  ]

  All-retain {κ} :
      (P : StoredMetric F → Type κ) (capacity : ℕ) (xs : List (StoredMetric F))
      → All P xs
      → All P (retain capacity xs)
  All-retain P capacity [] a = elim (Bool-cases (ltb capacity 0)) [
    | inl h ↦ rw h tt
    | inr h ↦ rw h tt
  ]
  All-retain P capacity (x ∷ xs) a = elim (Bool-cases (ltb capacity (suc (length xs)))) [
    | inl h ↦ rw h a.1
    | inr h ↦ rw h a
  ]

  retain-Sorted :
      (capacity : ℕ) (xs : List (StoredMetric F)) → Sorted xs → Sorted (retain capacity xs)
  retain-Sorted capacity [] d = elim (Bool-cases (ltb capacity 0)) [
    | inl h ↦ rw h tt
    | inr h ↦ rw h tt
  ]
  retain-Sorted capacity (x ∷ xs) d = elim (Bool-cases (ltb capacity (suc (length xs)))) [
    | inl h ↦ rw h d.1
    | inr h ↦ rw h d
  ]

  -- Any property of the old elements and of the new one holds of the result.
  pub All-insert_bounded_metric {κ} :
      (P : StoredMetric F → Type κ) (b : List (StoredMetric F)) (s : StoredMetric F) (capacity : ℕ)
      → Sorted b
      → P s
      → All P b
      → All P (insert_bounded_metric b s capacity)
  All-insert_bounded_metric P b s capacity d p a =
      rw (insert_bounded_metric_lem b s capacity d)
        (All-retain P capacity (insert_upper s b) (All-insert_upper P s b p a))

  pub insert_bounded_metric-Sorted :
      (b : List (StoredMetric F)) (s : StoredMetric F) (capacity : ℕ)
      → Sorted b
      → Apart s b
      → Sorted (insert_bounded_metric b s capacity)
  insert_bounded_metric-Sorted b s capacity d a =
      rw (insert_bounded_metric_lem b s capacity d)
        (retain-Sorted capacity (insert_upper s b) (insert_upper-Sorted s b a d))

  length-retain :
      (capacity : ℕ) (xs : List (StoredMetric F))
      → length xs ≤ suc capacity
      → length (retain capacity xs) ≤ capacity
  length-retain capacity [] h = ground arith
  length-retain capacity (x ∷ xs) h = ground arith

  pub length-insert_bounded_metric :
      (b : List (StoredMetric F)) (s : StoredMetric F) (capacity : ℕ)
      → Sorted b
      → length b ≤ capacity
      → length (insert_bounded_metric b s capacity) ≤ capacity
  length-insert_bounded_metric b s capacity d h =
      rw (insert_bounded_metric_lem b s capacity d)
        (length-retain capacity (insert_upper s b) (omega (arith, length-insert_upper s b)))
