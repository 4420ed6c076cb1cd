-- ===== src/Common.antt =====
-- What the modules share: library names passed on, tests, slices, outcomes and byte words.
mod Tests
mod Lists
mod Slices
mod Outcomes
mod Words
pub mod Ensures
pub mod Actions
pub mod Decimals
mod Ranges
mod Maps
unfoldable pub use Tests.*
unfoldable pub use Lists.*
unfoldable pub use Slices.*
pub use Outcomes.*
unfoldable pub use Words.*
unfoldable pub use Ranges.*
unfoldable pub use Maps.*
pub use Prim.Native.Nat.{ℕ, zero, suc, ◌+◌, ◌-◌, ◌*◌, ◌/◌, ◌%◌, ◌^◌, ◌≤◌, ◌<◌, bit_and}
pub use mathlib.Core.Path.{◌≡◌, refl, sym, ap, ap₂, subst, ◌∙◌}
pub use mathlib.Core.Logic.{◌≢◌, ◌↔◌, ◌⊎◌, inl, inr}
pub use mathlib.Core.Bool.{Bool, true, false, not, ◌&&◌, ◌||◌}
pub use mathlib.Core.Option.{Option, none, some}
pub use mathlib.Core.List.{List, [], ◌∷◌, ◌++◌, map, append-nil, append_assoc, append_cancel_left}
pub use native.Mathlib.Omega.{arith}
