-- ===== src/Prelude.antt =====
-- Names that the modules share: the libraries' names, passed on, and those of the children.
mod Tests
mod Rows
mod Text
mod Keyed
mod Least
mod Added
pub use Tests.*
pub use Rows.*
pub use Text.*
pub use Keyed.*
pub use Least.*
pub use Added.*
pub use Prim.Native.Nat.{ℕ, zero, suc, ◌+◌, ◌-◌, ◌*◌, ◌/◌, ◌%◌, ◌^◌, ◌≤◌, ◌<◌, max, min}
pub use Prim.Native.Nat.{compare, Ordering}
pub use mathlib.Core.Path.{◌≡◌, refl, sym, ap, subst, ◌∙◌}
pub use mathlib.Core.Logic.{◌≢◌, ◌↔◌, ◌⊎◌, inl, inr}
pub use mathlib.Core.Bool.{Bool, true, false, not, ◌&&◌, ◌||◌}
pub use mathlib.Core.Option.{Option, none, some}
pub use mathlib.Core.List.{List, [], ◌∷◌, ◌++◌, map, foldl, flat_map}
pub use native.Mathlib.Omega.{arith}
