-- ===== src/Base/Double.antt =====
-- What the program does with a `double`. The type and its operations are parameters; the laws are
-- those of IEEE 754 for values that are not NaN.
use mathlib.Core.Path.{◌≡◌}
use mathlib.Core.Bool.{Bool, true, false}
use mathlib.Core.Option.{Option, some, none}
use Prim.Native.Nat.{ℕ, ◌+◌, ◌*◌, ◌/◌}
use native.Mathlib.Omega.{arith}
use pulse_mesh.Base.Tests.{ltb, if◌then◌else◌}

pub record Double {ℓ} (F : Type ℓ) : Type ℓ where
  -- `0.0`, and a conversion of an unsigned number.
  pub nought : F
  pub of_ℕ : ℕ → F
  pub add : F → F → F
  pub mul : F → F → F
  pub div : F → F → F
  -- `operator<` and `std::isfinite`.
  pub lt : F → F → Bool
  pub is_finite : F → Bool

-- `std::max` and `std::min`, which return their first argument unless the second is better.
module _ {ℓ} {F : Type ℓ} ⦃d : Double F⦄ where
  abbrev pub max_of : F → F → F
  max_of a b = if d.lt a b then b else a

  abbrev pub min_of : F → F → F
  min_of a b = if d.lt b a then b else a

-- `<` orders the finite values, up to the two zeros.
pub record IsOrdered {ℓ} (F : Type ℓ) ⦃d : Double F⦄ : Type ℓ where
  pub lt_irrefl : (x : F) → d.is_finite x ≡ true → d.lt x x ≡ false
  pub lt_asymm :
      (x y : F) → d.is_finite x ≡ true → d.is_finite y ≡ true → d.lt x y ≡ true → d.lt y x ≡ false
  pub not_lt_trans :
      (x y z : F)
      → d.is_finite x ≡ true
      → d.is_finite y ≡ true
      → d.is_finite z ≡ true
      → d.lt y x ≡ false
      → d.lt z y ≡ false
      → d.lt z x ≡ false

-- The laws can be met: whole numbers, with `none` for the values that are not finite.
abbrev pub Whole : Type 0
Whole = Option ℕ

abbrev pub on_whole : (ℕ → ℕ → ℕ) → Whole → Whole → Whole
on_whole f (some a) (some b) = some (f a b)
on_whole f _ _ = none

abbrev pub whole_lt : Whole → Whole → Bool
whole_lt (some a) (some b) = ltb a b
whole_lt _ _ = false

abbrev pub whole_is_finite : Whole → Bool
whole_is_finite (some a) = true
whole_is_finite none = false

instance abbrev pub whole_double : Double Whole
whole_double = record {
  nought = some 0;
  of_ℕ = λ n. some n;
  add = on_whole ◌+◌;
  mul = on_whole ◌*◌;
  div = on_whole ◌/◌;
  lt = whole_lt;
  is_finite = whole_is_finite;
}

pub Whole-IsOrdered : IsOrdered Whole
Whole-IsOrdered = ground arith
