-- ===== src/Base.antt =====
-- Names that every part shares: the libraries', passed on, and those of the modules below this one.
mod Tests
mod Lists
pub mod Maps
pub mod Double
pub mod Int
pub use Tests.*
unfoldable pub use Tests.{text_eq}
pub use Lists.*
pub use Int.{ℤ, pos, negsuc, ltb_ℤ, leb_ℤ, eqb_ℤ, FitsInt64}
pub use Prim.Native.Nat.{ℕ, zero, suc, ◌+◌, ◌-◌, ◌*◌, ◌/◌, ◌%◌, ◌^◌, ◌≤◌, ◌<◌, min}
pub use mathlib.Core.Path.{◌≡◌, refl, sym, ap, subst, ◌∙◌}
pub use mathlib.Core.Logic.{◌≢◌, ◌↔◌, ◌⊎◌, inl, inr}
pub use mathlib.Core.Bool.{Bool, true, false, not, ◌&&◌, ◌||◌}
pub use mathlib.Core.Option.{Option, none, some}
pub use mathlib.Core.List.{List, [], ◌∷◌, ◌++◌, map, append_assoc, append-nil}
pub use native.Mathlib.Omega.{arith}
