-- ===== src/Common.antt =====
-- The names that the components share: the libraries' passed on, Boolean tests on the native
-- numbers, lists measured by native numbers, and JavaScript strings as lists of code units.
pub mod Tests
pub mod Errors
pub mod Lists
pub mod Members
pub mod Pairwise
pub mod Strings
pub use Prim.Native.Nat.{ℕ, zero, suc, ◌+◌, ◌-◌, ◌*◌, ◌/◌, ◌%◌, ◌≤◌, ◌<◌, min, Ordering, compare}
pub use mathlib.Core.Path.{◌≡◌, refl, sym, ap, ◌∙◌, subst}
pub use mathlib.Core.Logic.{◌≢◌, ◌↔◌, ◌⊎◌, inl, inr}
pub use mathlib.Core.Bool.{Bool, true, false, not, ◌&&◌, ◌||◌}
pub use mathlib.Core.Option.{Option, none, some}
pub use mathlib.Core.List.{List, [], ◌∷◌, ◌++◌, map, append_assoc, append-nil}
pub use native.Mathlib.Omega.{arith}
pub use Tests.*
pub use Errors.*
unfoldable pub use Lists.*
pub use Members.*
pub use Pairwise.*
pub use Strings.*
