-- ===== src/Base/Maps.antt =====
-- `std::unordered_map<std::string, V>` and `google::protobuf::Map` as the list of their entries. The
-- order of the entries stands for the unspecified order of iteration.
use pulse_mesh.Base.Tests.{Text, text_eq, text_eq_iff, if◌then◌else◌}
use mathlib.Core.Path.{◌≡◌, refl}
use mathlib.Core.Bool.{Bool, false, ◌||◌}
use mathlib.Core.Option.{Option, none, some}
use mathlib.Core.List.{List, [], ◌∷◌}
use native.Mathlib.Omega.{arith}

module _ {ℓ} {V : Type ℓ} where
  -- `find`.
  unfoldable pub find : Text → List (Text × V) → Option V
  find k [] = none
  find k ((j, v) ∷ m) = if text_eq j k then some v else find k m

  -- The assignment of a value to a key.
  unfoldable pub put : Text → V → List (Text × V) → List (Text × V)
  put k v [] = (k, v) ∷ []
  put k v ((j, w) ∷ m) = if text_eq j k then (j, v) ∷ m else (j, w) ∷ put k v m

  unfoldable pub has_key : Text → List (Text × V) → Bool
  has_key k [] = false
  has_key k ((j, v) ∷ m) = text_eq j k || has_key k m

  -- No key has two entries.
  abbrev pub DistinctKeys : List (Text × V) → Type 0
  DistinctKeys [] = Unit
  DistinctKeys ((k, v) ∷ m) = (has_key k m ≡ false) × DistinctKeys m

  pub find-put :
      (k j : Text) (v : V) (m : List (Text × V))
      → find j (put k v m) ≡ (if text_eq k j then some v else find j m)
  unfolding find put
  find-put k j v [] = refl
  find-put k j v ((i, w) ∷ m) =
      ground (arith, text_eq_iff k j, text_eq_iff i k, text_eq_iff i j, find-put k j v m)

  pub has_key-put :
      (k j : Text) (v : V) (m : List (Text × V))
      → has_key j (put k v m) ≡ (text_eq k j || has_key j m)
  unfolding has_key put
  has_key-put k j v [] = refl
  has_key-put k j v ((i, w) ∷ m) =
      ground (arith, text_eq_iff k j, text_eq_iff i k, text_eq_iff i j, has_key-put k j v m)

  pub DistinctKeys-put :
      (k : Text) (v : V) (m : List (Text × V)) → DistinctKeys m → DistinctKeys (put k v m)
  unfolding put
  DistinctKeys-put k v [] d = (unfold has_key in refl, tt)
  DistinctKeys-put k v ((i, w) ∷ m) d =
      ground
        (arith, text_eq_iff i k, text_eq_iff k i, has_key-put k i v m, DistinctKeys-put k v m d.1)
