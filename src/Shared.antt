-- ===== src/Shared.antt =====
-- The names that the other modules share: the libraries', passed on, and those of the children
-- for Boolean tests, results with panics, machine words, signed numbers
-- and lists.
mod Test
mod Results
mod Word
mod Integer
mod Lists
pub use Test.*
pub use Results.*
pub use Word.*
pub use Integer.*
pub use Lists.*
pub use Prim.Native.Nat.{ℕ, zero, suc, ◌+◌, ◌-◌, ◌*◌, ◌/◌, ◌%◌, ◌^◌, ◌≤◌, ◌<◌, min, max}
pub use mathlib.Core.Path.{◌≡◌, refl, sym, ap, ◌∙◌}
pub use mathlib.Core.Logic.{◌≢◌, ◌↔◌, ◌⊎◌, inl, inr}
pub use mathlib.Core.Bool.{Bool, true, false, not, ◌&&◌, ◌||◌}
pub use mathlib.Core.Option.{Option, none, some}
pub use mathlib.Core.List.{List, [], ◌∷◌, ◌++◌}
pub use native.Mathlib.Omega.{arith}
