-- ===== src/Prelude.antt =====
-- Names that every module of the library shares: the libraries', passed on, Boolean tests, lists
-- measured by native numbers, and integers.
mod Tests
mod Lists
mod Ints
mod Text
mod Sorting
pub mod Strings
pub mod Paths
pub use Tests.*
pub use Lists.*
pub use Ints.*
pub use Text.*
unfoldable pub use Sorting.{sort_insert, sort_by}
pub use Sorting.{
  length-sort_by, IsSortedBy, sort_by-perm, sort_by-IsSortedBy, IsSortedBy-take, IsSortedBy-drop,
  Precedes, Precedes-take-drop,
}
pub use Prim.Native.Nat.{ℕ, zero, suc, ◌+◌, ◌-◌, ◌*◌, ◌/◌, ◌%◌, ◌^◌, ◌≤◌, ◌<◌, min, max}
pub use Prim.Native.String.{String}
pub use mathlib.Core.Path.{◌≡◌, refl, sym, ap, ◌∙◌}
pub use mathlib.Core.Logic.{◌≢◌, ◌↔◌, ◌⊎◌, inl, inr}
pub use mathlib.Core.Bool.{Bool, true, false, not, ◌&&◌, ◌||◌}
pub use mathlib.Core.Option.{Option, none, some}
pub use mathlib.Core.List.{List, [], ◌∷◌, ◌++◌, map}
pub use native.Mathlib.Omega.{arith}
pub use text.Mathlib.Text.{◌==◌ as str_eq}
pub use text.Mathlib.TextEquality.{eq_iff}
pub use text.Mathlib.TextPositions.{eq_refl}
