-- ===== src/Common.antt =====
-- The names that every module shares: the libraries', passed on, Boolean tests and lists over the
-- native numbers, and Go strings (Common/Strings.antt).
mod Tests
mod Lists
mod Strings
mod Int
mod Decimal
mod Lines
pub mod Json
pub use Tests.*
unfoldable pub use Lists.*
pub use Int.*
unfoldable pub use Decimal.*
unfoldable pub use Strings.*
unfoldable pub use Lines.*
pub use Prim.Native.Nat.{
  ℕ, zero, suc, ◌+◌, ◌-◌, ◌*◌, ◌/◌, ◌%◌, ◌^◌, ◌≤◌, ◌<◌, min, max, compare, Ordering,
}
pub use Prim.Native.String.{String}
pub use mathlib.Core.Path.{◌≡◌, refl, sym, ap, subst, ◌∙◌}
pub use mathlib.Core.Logic.{◌≢◌, ◌↔◌, ◌⊎◌, inl, inr}
pub use mathlib.Core.Bool.{Bool, true, false, not, ◌&&◌, ◌||◌}
pub use mathlib.Core.Option.{Option, none, some}
pub use mathlib.Core.List.{List, [], ◌∷◌, ◌++◌, append-nil, append_assoc}
pub use native.Mathlib.Omega.{arith}
