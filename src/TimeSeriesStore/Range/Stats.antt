-- ===== src/TimeSeriesStore/Range/Stats.antt =====
-- The aggregates of `compute_stats` of in_memory_time_series_store.cpp.
use mathlib.Core.List.{foldl}
use pulse_mesh.Base.{
  Occurs, first, later, ◌≡◌, ◌⊎◌, inl, inr, refl, sym, true, false, List, [], ◌∷◌, All, Bool-cases,
}
use pulse_mesh.Base.Double.{Double, IsOrdered, max_of, min_of}
use pulse_mesh.TimeSeriesStore.Range.{compute_stats}

module _ {ℓ} {F : Type ℓ} ⦃d : Double F⦄ (laws : IsOrdered F) where
  open laws use {lt_irrefl, lt_asymm, not_lt_trans}

  abbrev pub IsFinite : F → Type 0
  IsFinite v = d.is_finite v ≡ true

  -- `m` is not less than `v`.
  abbrev pub AtLeast : F → F → Type 0
  AtLeast m v = d.lt m v ≡ false

  -- `m` is the best of `best` and the list, for the order `up`.
  record IsMax (best m : F) (xs : List F) : Type ℓ where
    finite : IsFinite m
    above : AtLeast m best
    above_all : All (AtLeast m) xs
    member : (m ≡ best) ⊎ Occurs m xs

  record IsMin (best m : F) (xs : List F) : Type ℓ where
    finite : IsFinite m
    below : AtLeast best m
    below_all : All (λ v. AtLeast v m) xs
    member : (m ≡ best) ⊎ Occurs m xs

  foldl-max_of :
      (best : F) (xs : List F)
      → IsFinite best
      → All IsFinite xs
      → IsMax best (foldl max_of best xs) xs
  foldl-max_of best [] f a = record {
    finite = f;
    above = lt_irrefl best f;
    above_all = tt;
    member = inl refl;
  }
  foldl-max_of best (x ∷ xs) f a = elim (Bool-cases (d.lt best x)) [
    | inl up ↦ rw up (
        let rest = foldl-max_of x xs a.0 a.1 in
        let low = lt_asymm best x f a.0 up in
        record {
          finite = rest.finite;
          above = not_lt_trans best x _ f a.0 rest.finite low rest.above;
          above_all = (rest.above, rest.above_all);
          member = elim rest.member [ inl e ↦ inr (first (sym e)) | inr o ↦ inr (later o) ];
        })
    | inr stay ↦ rw stay (
        let rest = foldl-max_of best xs f a.1 in
        record {
          finite = rest.finite;
          above = rest.above;
          above_all = (not_lt_trans x best _ a.0 f rest.finite stay rest.above, rest.above_all);
          member = elim rest.member [ inl e ↦ inl e | inr o ↦ inr (later o) ];
        })
  ]

  foldl-min_of :
      (best : F) (xs : List F)
      → IsFinite best
      → All IsFinite xs
      → IsMin best (foldl min_of best xs) xs
  foldl-min_of best [] f a = record {
    finite = f;
    below = lt_irrefl best f;
    below_all = tt;
    member = inl refl;
  }
  foldl-min_of best (x ∷ xs) f a = elim (Bool-cases (d.lt x best)) [
    | inl down ↦ rw down (
        let rest = foldl-min_of x xs a.0 a.1 in
        let low = lt_asymm x best a.0 f down in
        record {
          finite = rest.finite;
          below = not_lt_trans _ x best rest.finite a.0 f rest.below low;
          below_all = (rest.below, rest.below_all);
          member = elim rest.member [ inl e ↦ inr (first (sym e)) | inr o ↦ inr (later o) ];
        })
    | inr stay ↦ rw stay (
        let rest = foldl-min_of best xs f a.1 in
        record {
          finite = rest.finite;
          below = rest.below;
          below_all = (not_lt_trans _ best x rest.finite f a.0 rest.below stay, rest.below_all);
          member = elim rest.member [ inl e ↦ inl e | inr o ↦ inr (later o) ];
        })
  ]

  Occurs-of : (m v : F) (vs : List F) → (m ≡ v) ⊎ Occurs m (v ∷ vs) → Occurs m (v ∷ vs)
  Occurs-of m v vs (inl e) = first (sym e)
  Occurs-of m v vs (inr o) = o

  -- Where `<` orders the finite values, of one or more finite values `max` and `min` are two of the values, no value is greater than
  -- `max`, and none is less than `min`.
  pub compute_stats_bounds :
      (v : F) (vs : List F)
      → All IsFinite (v ∷ vs)
      → let stats = compute_stats (v ∷ vs) in
        Occurs stats.max (v ∷ vs)
        × Occurs stats.min (v ∷ vs)
        × All (λ x. AtLeast stats.max x) (v ∷ vs)
        × All (λ x. AtLeast x stats.min) (v ∷ vs)
  unfolding compute_stats
  compute_stats_bounds v vs a =
      let top = foldl-max_of v (v ∷ vs) a.0 a in
      let bottom = foldl-min_of v (v ∷ vs) a.0 a in
      (Occurs-of _ v vs top.member, Occurs-of _ v vs bottom.member, top.above_all, bottom.below_all)
