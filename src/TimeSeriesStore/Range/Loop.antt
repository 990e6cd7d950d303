-- ===== src/TimeSeriesStore/Range/Loop.antt =====
-- The whole page loop of in_memory_time_series_store.cpp on a buffer in order of time: which samples
-- it aggregates, and which ones it returns.
use pulse_mesh.Base.{
  ℕ, ◌<◌, ◌^◌, ◌≡◌, refl, sym, ap, ◌∙◌, inl, inr, Bool, false, not, ◌&&◌, ℤ, ltb_ℤ, leb_ℤ, List, [],
  ◌∷◌, ◌++◌, append_assoc, append-nil, Option, none, some, arith, if◌then◌else◌, keep, All, All-map,
  Bool-cases,
}
use pulse_mesh.Base.Double.{Double}
use pulse_mesh.Wire.{RangeRequest}
use pulse_mesh.TimeSeriesStore.{StoredMetric}
use pulse_mesh.TimeSeriesStore.Buffer.Order.{Before, Sorted}
use pulse_mesh.TimeSeriesStore.Range.{
  RangeQueryPlan, timestamp, seek, scan, respond, compute_stats, build_range_page, page_of,
}
use pulse_mesh.TimeSeriesStore.Commit.{buffer_or_empty}
use pulse_mesh.TimeSeriesStore.Range.Page.{
  HasPageSize, selects, beyond, state_after, state_after-nil, visit_lem,
}

module _ {ℓ} {F : Type ℓ} where
  abbrev in_time : RangeRequest → StoredMetric F → Bool
  in_time r x = leb_ℤ (timestamp x) r.to_ms

  -- The samples that a range request is about: from `from_ms` to `to_ms`, both included, up to the
  -- snapshot's last event, and matching the filters.
  abbrev pub is_requested : RangeRequest → ℕ → StoredMetric F → Bool
  is_requested r snapshot x =
      not (ltb_ℤ (timestamp x) r.from_ms) && in_time r x && selects r snapshot x

  -- In order of time.
  abbrev NotEarlier : StoredMetric F → StoredMetric F → Type 0
  NotEarlier x y = ltb_ℤ (timestamp y) (timestamp x) ≡ false

  abbrev Rising : List (StoredMetric F) → Type 0
  Rising [] = Unit
  Rising (x ∷ xs) = All (NotEarlier x) xs × Rising xs

  Before-NotEarlier : (x y : StoredMetric F) → Before x y → NotEarlier x y
  Before-NotEarlier x y h = ground arith

  Sorted-Rising : (xs : List (StoredMetric F)) → Sorted xs → Rising xs
  Sorted-Rising [] d = tt
  Sorted-Rising (x ∷ xs) d =
      (All-map (Before x) (NotEarlier x) xs (Before-NotEarlier x) d.0, Sorted-Rising xs d.1)

  -- Behind a sample that is too late all are.
  too_late :
      (r : RangeRequest) (snapshot : ℕ) (x : StoredMetric F) (xs : List (StoredMetric F))
      → in_time r x ≡ false
      → All (NotEarlier x) xs
      → keep (λ y. in_time r y && selects r snapshot y) xs ≡ []
  too_late r snapshot x [] h a = refl
  too_late r snapshot x (y ∷ ys) h a =
      let late : in_time r y ≡ false = let e = a.0 in ground arith in
      rw late (too_late r snapshot x ys h a.1)

  keep-one :
      (p : StoredMetric F → Bool) (x : StoredMetric F) (xs : List (StoredMetric F))
      → keep p (x ∷ []) ++ xs ≡ (if p x then x ∷ xs else xs)
  keep-one p x xs = ground arith

  -- Behind a sample that is not too early none is.
  late_enough :
      (r : RangeRequest) (snapshot : ℕ) (x : StoredMetric F) (xs : List (StoredMetric F))
      → ltb_ℤ (timestamp x) r.from_ms ≡ false
      → All (NotEarlier x) xs
      → keep (λ y. in_time r y && selects r snapshot y) xs ≡ keep (is_requested r snapshot) xs
  late_enough r snapshot x [] h a = refl
  late_enough r snapshot x (y ∷ ys) h a =
      let late : ltb_ℤ (timestamp y) r.from_ms ≡ false = let e = a.0 in ground arith in
      let rest = late_enough r snapshot x ys h a.1 in rw (late, rest)

  scan_lem :
      (r : RangeRequest) (plan : RangeQueryPlan) (snapshot : ℕ) (xs seen : List (StoredMetric F))
      → HasPageSize plan
      → Rising xs
      → scan r plan snapshot xs (state_after plan snapshot seen)
        ≡ state_after plan snapshot (seen ++ keep (λ y. in_time r y && selects r snapshot y) xs)
  unfolding scan
  scan_lem r plan snapshot [] seen small d = ap (state_after plan snapshot) (sym (append-nil seen))
  scan_lem r plan snapshot (x ∷ xs) seen small d = elim (Bool-cases (in_time r x)) [
    | inr late ↦
        rw (late, too_late r snapshot x xs late d.0)
          (ap (state_after plan snapshot) (sym (append-nil seen)))
    | inl early ↦
        rw (early, visit_lem r plan snapshot x seen small)
          (scan_lem r plan snapshot xs (seen ++ keep (selects r snapshot) (x ∷ [])) small d.1
            ∙ ap (state_after plan snapshot) (
                append_assoc seen (keep (selects r snapshot) (x ∷ [])) _
                ∙ ap (◌++◌ seen) (keep-one (selects r snapshot) x _)))
  ]

  seek-Rising : (from : ℤ) (xs : List (StoredMetric F)) → Rising xs → Rising (seek from xs)
  unfolding seek
  seek-Rising from [] d = tt
  seek-Rising from (x ∷ xs) d = elim (Bool-cases (ltb_ℤ (timestamp x) from)) [
    | inl early ↦ rw early (seek-Rising from xs d.1)
    | inr there ↦ rw there d
  ]

  seek_lem :
      (r : RangeRequest) (snapshot : ℕ) (xs : List (StoredMetric F))
      → Rising xs
      → keep (λ y. in_time r y && selects r snapshot y) (seek r.from_ms xs)
        ≡ keep (is_requested r snapshot) xs
  unfolding seek
  seek_lem r snapshot [] d = refl
  seek_lem r snapshot (x ∷ xs) d = elim (Bool-cases (ltb_ℤ (timestamp x) r.from_ms)) [
    | inl early ↦ rw early (seek_lem r snapshot xs d.1)
    | inr there ↦ rw (there, late_enough r snapshot x xs there d.0)
  ]

  -- The samples behind the cursor of the plan.
  abbrev pub remaining :
      RangeRequest → RangeQueryPlan → ℕ → List (StoredMetric F) → List (StoredMetric F)
  remaining r plan snapshot b = keep (beyond plan) (keep (is_requested r snapshot) b)

module _ {ℓ} {F : Type ℓ} ⦃d : Double F⦄ where
  -- On a sorted buffer, with a page size in the range of `uint32_t`, `build_range_page` answers with
  -- the aggregates of all the requested samples, whatever the cursor, and with the first `page_size`
  -- of those behind the cursor; it gives a token exactly if there are more.
  pub build_range_page_lem :
      (b : List (StoredMetric F)) (r : RangeRequest) (plan : RangeQueryPlan) (snapshot : ℕ)
      → plan.page_size < 2 ^ 32
      → Sorted b
      → build_range_page b r plan snapshot
        ≡ respond (state_after plan snapshot (keep (is_requested r snapshot) b))
  unfolding build_range_page
  build_range_page_lem b r plan snapshot small sorted =
      let rising = Sorted-Rising b sorted in
      ap respond (
        ap (scan r plan snapshot (seek r.from_ms b)) (sym (state_after-nil plan snapshot))
        ∙ scan_lem r plan snapshot (seek r.from_ms b) [] small (seek-Rising r.from_ms b rising)
        ∙ ap (state_after plan snapshot) (seek_lem r snapshot b rising))

  -- A metric without a buffer is answered like one with an empty buffer.
  pub page_of_lem :
      (o : Option (List (StoredMetric F))) (r : RangeRequest) (plan : RangeQueryPlan) (snapshot : ℕ)
      → plan.page_size < 2 ^ 32
      → Sorted (buffer_or_empty o)
      → page_of r plan snapshot o
        ≡ respond (state_after plan snapshot (keep (is_requested r snapshot) (buffer_or_empty o)))
  unfolding page_of
  page_of_lem none r plan snapshot small sorted =
      unfold compute_stats in ap respond (sym (state_after-nil plan snapshot))
  page_of_lem (some b) r plan snapshot small sorted =
      build_range_page_lem b r plan snapshot small sorted
