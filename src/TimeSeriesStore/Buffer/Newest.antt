-- ===== src/TimeSeriesStore/Buffer/Newest.antt =====
-- `insert_bounded_metric` of in_memory_time_series_store.cpp on the buffer that keeps the greatest keys
-- of a longer list.
use pulse_mesh.Base.{
  ℕ, suc, ◌<◌, ◌≤◌, ◌≡◌, refl, sym, ap, ◌∙◌, inl, inr, true, false, List, [], ◌∷◌, arith, ltb, leb,
  if◌then◌else◌, length, All, Bool-cases,
}
use pulse_mesh.TimeSeriesStore.{StoredMetric}
use pulse_mesh.TimeSeriesStore.Buffer.{key_lt, key_of, insert_upper, insert_bounded_metric}
use pulse_mesh.TimeSeriesStore.Buffer.Order.{
  Before, Sorted, retain, length-insert_upper, insert_bounded_metric_lem, Before-All,
}

-- The last elements, `n` at most.
abbrev pub newest {ℓ} : {A : Type ℓ} → ℕ → List A → List A
newest n [] = []
newest n (x ∷ xs) = if leb (suc (length xs)) n then x ∷ xs else newest n xs

module _ {ℓ} {A : Type ℓ} where
  pub newest_all : (n : ℕ) (xs : List A) → length xs ≤ n → newest n xs ≡ xs
  newest_all n [] h = refl
  newest_all n (x ∷ xs) h = let e : leb (suc (length xs)) n ≡ true = ground arith in rw e refl

  newest_tail : (n : ℕ) (x : A) (xs : List A) → n ≤ length xs → newest n (x ∷ xs) ≡ newest n xs
  newest_tail n x xs h = let e : leb (suc (length xs)) n ≡ false = ground arith in rw e refl

  pub length-newest : (n : ℕ) (xs : List A) → n ≤ length xs → length (newest n xs) ≡ n
  length-newest n [] h = omega (arith, h)
  length-newest n (x ∷ xs) h = elim (Bool-cases (leb (suc (length xs)) n)) [
    | inl e ↦ rw e (ground arith)
    | inr e ↦ rw e (length-newest n xs (ground arith))
  ]

  All-newest {κ} : (P : A → Type κ) (n : ℕ) (xs : List A) → All P xs → All P (newest n xs)
  All-newest P n [] a = tt
  All-newest P n (x ∷ xs) a = elim (Bool-cases (leb (suc (length xs)) n)) [
    | inl e ↦ rw e a
    | inr e ↦ rw e (All-newest P n xs a.1)
  ]

module _ {ℓ} {F : Type ℓ} where
  pub newest-Sorted : (n : ℕ) (xs : List (StoredMetric F)) → Sorted xs → Sorted (newest n xs)
  newest-Sorted n [] d = tt
  newest-Sorted n (x ∷ xs) d = elim (Bool-cases (leb (suc (length xs)) n)) [
    | inl e ↦ rw e d
    | inr e ↦ rw e (newest-Sorted n xs d.1)
  ]

  insert_upper-front :
      (s : StoredMetric F) (xs : List (StoredMetric F))
      → All (Before s) xs
      → insert_upper s xs ≡ s ∷ xs
  unfolding insert_upper
  insert_upper-front s [] a = refl
  insert_upper-front s (x ∷ xs) a = rw a.0 refl

  retain-newest :
      (n : ℕ) (xs : List (StoredMetric F)) → length xs ≤ suc n → retain n xs ≡ newest n xs
  retain-newest n [] h = ground arith
  retain-newest n (x ∷ xs) h = elim (Bool-cases (ltb n (suc (length xs)))) [
    | inl e ↦ rw e (sym (newest_tail n x xs (ground arith) ∙ newest_all n xs (omega (arith, h))))
    | inr e ↦ rw e (sym (newest_all n (x ∷ xs) (ground arith)))
  ]

  retain-newest_front :
      (n : ℕ) (s : StoredMetric F) (xs : List (StoredMetric F))
      → 0 < n
      → n ≤ length xs
      → retain n (s ∷ newest n xs) ≡ newest n xs
  retain-newest_front n s xs h g =
      let e : ltb n (suc (length (newest n xs))) ≡ true =
        let l = length-newest n xs g in ground arith in
      rw e refl

  retain-insert_upper :
      (n : ℕ) (s : StoredMetric F) (xs : List (StoredMetric F))
      → 0 < n
      → Sorted xs
      → retain n (insert_upper s (newest n xs)) ≡ newest n (insert_upper s xs)
  unfolding insert_upper
  retain-insert_upper n s [] h d = retain-newest n (s ∷ []) (omega (arith, h))
  retain-insert_upper n s (x ∷ xs) h d = elim (Bool-cases (leb (suc (length xs)) n)) [
    | inl fits ↦ rw fits (
        retain-newest n (insert_upper s (x ∷ xs))
          (let e = length-insert_upper s (x ∷ xs) in ground arith))
    | inr long ↦
        let l : n ≤ length xs = ground arith in
        elim (Bool-cases (key_lt (key_of s) (key_of x))) [
          | inl first ↦
              rw (long, first)
                (ap (retain n) (
                    insert_upper-front s (newest n xs)
                      (All-newest (Before s) n xs (Before-All s x xs first d.0)))
                  ∙ retain-newest_front n s xs h l
                  ∙ sym (newest_tail n s (x ∷ xs) (omega (arith, l)) ∙ newest_tail n x xs l))
          | inr later ↦
              rw (long, later)
                (retain-insert_upper n s xs h d.1
                  ∙ sym (
                      newest_tail n x (insert_upper s xs)
                        (let e = length-insert_upper s xs in omega arith)))
        ]
  ]

  -- The buffer of a sorted list's newest elements becomes that of the list with the new one in order.
  pub insert_bounded_metric-newest :
      (n : ℕ) (s : StoredMetric F) (xs : List (StoredMetric F))
      → 0 < n
      → Sorted xs
      → insert_bounded_metric (newest n xs) s n ≡ newest n (insert_upper s xs)
  insert_bounded_metric-newest n s xs h d =
      insert_bounded_metric_lem (newest n xs) s n (newest-Sorted n xs d)
      ∙ retain-insert_upper n s xs h d
