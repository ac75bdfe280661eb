-- ===== src/Prelude.antt =====
-- The names that the other modules share: the libraries' own, passed on, Boolean tests and lists
-- over the native numbers, Go's texts as lists of code points, and decimal numerals.
mod Tests
mod Lists
mod Decimal
mod Strings
mod Outcomes
pub use Tests.*
unfoldable pub use Decimal.*
unfoldable pub use Strings.*
pub use Lists.*
pub use Outcomes.*
pub use Prim.Native.Nat.{ℕ, zero, suc, ◌+◌, ◌-◌, ◌*◌, ◌/◌, ◌%◌, ◌^◌, ◌≤◌, ◌<◌}
pub use mathlib.Core.Path.{◌≡◌, refl, sym, ap, ◌∙◌, subst}
pub use mathlib.Core.Logic.{◌≢◌, ◌↔◌, ◌⊎◌, inl, inr}
pub use mathlib.Core.Bool.{Bool, true, false, not, ◌&&◌, ◌||◌}
pub use mathlib.Core.Option.{Option, none, some}
pub use mathlib.Core.List.{List, [], ◌∷◌, ◌++◌, map}
pub use native.Mathlib.Omega.{arith}
