-- ===== src/Prelude.antt =====
-- What the models of all components share: library names passed on, Boolean tests, lists over the
-- native numbers, byte strings, association maps, a stable sort and the bits of a double.
mod Tests
mod Lists
pub mod Text
pub mod Decimal
pub mod Int
pub mod Unicode
pub mod Keys
pub mod Maps
pub mod Sort
pub mod Float
pub use Tests.*
pub use Lists.*
pub use Prim.Native.Nat.{ℕ, zero, suc, ◌+◌, ◌-◌, ◌*◌, ◌/◌, ◌%◌, ◌^◌, ◌≤◌, ◌<◌, min, max}
pub use mathlib.Core.Path.{◌≡◌, refl, sym, ap, ◌∙◌}
pub use mathlib.Core.Logic.{◌≢◌, ◌↔◌, ◌⊎◌, inl, inr}
pub use mathlib.Core.Bool.{Bool, true, false, not, ◌&&◌, ◌||◌}
pub use mathlib.Core.Option.{Option, none, some}
pub use mathlib.Core.List.{List, [], ◌∷◌, ◌++◌, map, reverse, flat_map}
pub use native.Mathlib.Omega.{arith}
