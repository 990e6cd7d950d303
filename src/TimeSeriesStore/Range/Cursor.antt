-- ===== src/TimeSeriesStore/Range/Cursor.antt =====
-- What a cursor of in_memory_time_series_store.cpp leaves of a sorted buffer.
use pulse_mesh.Base.{
  ℕ, zero, suc, ◌<◌, ◌≡◌, refl, sym, ap, subst, ◌⊎◌, ◌∙◌, inl, inr, Bool, true, false, List, [],
  ◌∷◌, Option, none, some, arith, length, take, drop, keep, All, All-keep, Bool-cases, Option-cases,
}
use pulse_mesh.TimeSeriesStore.{StoredMetric}
use pulse_mesh.TimeSeriesStore.PageToken.{RangePageCursor}
use pulse_mesh.TimeSeriesStore.Buffer.{key_lt, key_of, last?}
use pulse_mesh.TimeSeriesStore.Buffer.Order.{Before, Sorted, key_lt_trans, key_lt_asymm}
use pulse_mesh.TimeSeriesStore.Range.{RangeQueryPlan, timestamp, is_after_cursor, after_option}
use pulse_mesh.TimeSeriesStore.Range.Page.{beyond, cursor_at}

module _ {ℓ} {F : Type ℓ} where
  pub All-take {κ} :
      (P : StoredMetric F → Type κ) (n : ℕ) (xs : List (StoredMetric F))
      → All P xs
      → All P (take n xs)
  All-take P zero xs a = tt
  All-take P (suc n) [] a = tt
  All-take P (suc n) (x ∷ xs) a = (a.0, All-take P n xs a.1)

  last?-cons :
      (x y : StoredMetric F) (xs : List (StoredMetric F))
      → last? (x ∷ xs) ≡ some y
      → (x ≡ y) ⊎ (last? xs ≡ some y)
  last?-cons x y xs h = elim (Option-cases (last? xs)) [
    | inl e ↦ inl (let g : some x ≡ some y = rw e at h in cc)
    | inr (z, e) ↦ inr (let g : some z ≡ some y = rw e at h in cc)
  ]

  pub last?-cons_cons :
      (x z : StoredMetric F) (zs : List (StoredMetric F)) → last? (x ∷ z ∷ zs) ≡ last? (z ∷ zs)
  last?-cons_cons x z zs = elim (Option-cases (last? zs)) [ inl e ↦ rw e | inr (w, e) ↦ rw e ]

  pub All-last {κ} :
      (P : StoredMetric F → Type κ) (xs : List (StoredMetric F)) (y : StoredMetric F)
      → last? xs ≡ some y
      → All P xs
      → P y
  All-last P [] y h a = absurd (cc)
  All-last P (x ∷ xs) y h a = elim (last?-cons x y xs h) [
    | inl e ↦ subst P e a.0
    | inr later ↦ All-last P xs y later a.1
  ]

  pub last?-some :
      (xs : List (StoredMetric F)) → 0 < length xs → (y : StoredMetric F) × (last? xs ≡ some y)
  last?-some [] h = absurd (omega arith)
  last?-some (x ∷ xs) h = elim (Option-cases (last? xs)) [
    | inl e ↦ (x, rw e)
    | inr (y, e) ↦ (y, rw e)
  ]

  pub keep-Sorted :
      (p : StoredMetric F → Bool) (xs : List (StoredMetric F)) → Sorted xs → Sorted (keep p xs)
  keep-Sorted p [] d = tt
  keep-Sorted p (x ∷ xs) d = elim (Bool-cases (p x)) [
    | inl h ↦ rw h (All-keep (Before x) p xs d.0, keep-Sorted p xs d.1)
    | inr h ↦ rw h (keep-Sorted p xs d.1)
  ]

  All-passed :
      (p : StoredMetric F → Bool) (xs : List (StoredMetric F)) → All (λ x. p x ≡ true) (keep p xs)
  All-passed p [] = tt
  All-passed p (x ∷ xs) = elim (Bool-cases (p x)) [
    | inl h ↦ rw h (h, All-passed p xs)
    | inr h ↦ rw h (All-passed p xs)
  ]

  abbrev after_key : StoredMetric F → StoredMetric F → Bool
  after_key y x = key_lt (key_of y) (key_of x)

  key_lt_self : (x : StoredMetric F) → after_key x x ≡ false
  key_lt_self x = ground arith

  keep-All :
      (y : StoredMetric F) (xs : List (StoredMetric F))
      → All (Before y) xs
      → keep (after_key y) xs ≡ xs
  keep-All y [] a = refl
  keep-All y (x ∷ xs) a = rw a.0 (ap (◌∷◌ x) (keep-All y xs a.1))

  keep-last_taken :
      (n : ℕ) (xs : List (StoredMetric F)) (y : StoredMetric F)
      → Sorted xs
      → last? (take (suc n) xs) ≡ some y
      → keep (after_key y) xs ≡ drop (suc n) xs
  keep-last_taken n [] y d h = refl
  keep-last_taken zero (x ∷ xs) y d h =
      let same : y ≡ x = cc in
      subst (λ w. keep (after_key w) (x ∷ xs) ≡ xs) (sym same)
        (rw (key_lt_self x) (keep-All x xs d.0))
  keep-last_taken (suc n) (x ∷ []) y d h =
      let same : y ≡ x = cc in
      subst (λ w. keep (after_key w) (x ∷ []) ≡ []) (sym same) (rw (key_lt_self x))
  keep-last_taken (suc n) (x ∷ z ∷ xs) y d h =
      let later : last? (take (suc n) (z ∷ xs)) ≡ some y =
        sym (last?-cons_cons x z (take n xs)) ∙ h in
      let first : Before x y =
        All-last (Before x) (take (suc n) (z ∷ xs)) y later
          (All-take (Before x) (suc n) (z ∷ xs) d.0) in
      let rest = keep-last_taken n (z ∷ xs) y d.1 later in
      rw (key_lt_asymm (key_of x) (key_of y) first) rest

  keep-weaker :
      (p q : StoredMetric F → Bool) (xs : List (StoredMetric F))
      → ((x : StoredMetric F) → p x ≡ true → q x ≡ true)
      → keep p (keep q xs) ≡ keep p xs
  keep-weaker p q [] f = refl
  keep-weaker p q (x ∷ xs) f = ground (arith, f x, keep-weaker p q xs f)

  keep-congr :
      (p q : StoredMetric F → Bool) (xs : List (StoredMetric F))
      → ((x : StoredMetric F) → p x ≡ q x)
      → keep p xs ≡ keep q xs
  keep-congr p q [] f = refl
  keep-congr p q (x ∷ xs) f = rw (f x, keep-congr p q xs f)

  cursor_after_key :
      (snapshot : ℕ) (y x : StoredMetric F)
      → after_option (timestamp x) x.event_id (cursor_at snapshot (some y)) ≡ after_key y x
  cursor_after_key snapshot y x = ground arith

  is_after_cursor_lem :
      (c : RangePageCursor) (x : StoredMetric F)
      → is_after_cursor (timestamp x) x.event_id c ≡ key_lt (c.timestamp_ms, c.event_id) (key_of x)
  is_after_cursor_lem c x = ground arith

  after_trans :
      (o : Option RangePageCursor) (y x : StoredMetric F)
      → after_option (timestamp y) y.event_id o ≡ true
      → after_key y x ≡ true
      → after_option (timestamp x) x.event_id o ≡ true
  after_trans none y x h g = refl
  after_trans (some c) y x h g =
      is_after_cursor_lem c x
      ∙ key_lt_trans (c.timestamp_ms, c.event_id) (key_of y) (key_of x)
          (sym (is_after_cursor_lem c y) ∙ h) g

  -- The next page's cursor, at the last sample `y` of a page, leaves what the page left out.
  pub keep-next_cursor :
      (plan : RangeQueryPlan) (snapshot : ℕ) (xs : List (StoredMetric F)) (n : ℕ)
      (y : StoredMetric F)
      → Sorted xs
      → last? (take (suc n) (keep (beyond plan) xs)) ≡ some y
      → keep (λ x. after_option (timestamp x) x.event_id (cursor_at snapshot (some y))) xs
        ≡ drop (suc n) (keep (beyond plan) xs)
  keep-next_cursor plan snapshot xs n y d h =
      let reached : beyond plan y ≡ true =
        All-last (λ x. beyond plan x ≡ true) (take (suc n) (keep (beyond plan) xs)) y h
          (All-take _ (suc n) (keep (beyond plan) xs) (All-passed (beyond plan) xs)) in
      keep-congr _ (after_key y) xs (cursor_after_key snapshot y)
      ∙ sym (
          keep-weaker (after_key y) (beyond plan) xs (λ x g. after_trans plan.cursor y x reached g))
      ∙ keep-last_taken n (keep (beyond plan) xs) y (keep-Sorted (beyond plan) xs d) h
