-- ===== src/Prelude.antt =====
-- The names that the other modules share: the libraries', passed on, with tests on numbers, lists
-- measured by native numbers, and document collections.
mod Tests
mod Lists
mod Collection
mod Texts
mod Hex
mod Maps
pub use Tests.*
pub use Lists.*
pub use Collection.*
pub use Texts.*
pub use Hex.*
pub use Maps.*
pub use Prim.Native.Nat.{ℕ, zero, suc, ◌+◌, ◌-◌, ◌*◌, ◌/◌, ◌%◌, ◌≤◌, ◌<◌}
pub use Prim.Native.String.{String}
pub use mathlib.Core.Path.{◌≡◌, refl, sym, ap, ◌∙◌}
pub use mathlib.Core.Logic.{◌≢◌, ◌↔◌, ◌⊎◌, inl, inr}
pub use mathlib.Core.Bool.{Bool, true, false, ◌&&◌, ◌||◌, not}
pub use mathlib.Core.Option.{Option, none, some}
pub use mathlib.Core.List.{List, [], ◌∷◌, ◌++◌, map}
pub use native.Mathlib.Omega.{arith}
