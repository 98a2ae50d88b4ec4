-- ===== src/Prelude.antt =====
-- The names that the modules share: those of the libraries, passed on, the Boolean tests on
-- numbers, lists measured by native numbers, 64-bit and 32-bit wrap-around, and the rule sets.
mod Tests
mod Lists
mod Words
mod Distinct
mod Bits
pub use Tests.*
pub use Lists.*
pub use Words.*
pub use Distinct.*
pub use Bits.*
pub use Prim.Native.Nat.{ℕ, zero, suc, ◌+◌, ◌-◌, ◌*◌, ◌/◌, ◌%◌, ◌^◌, ◌≤◌, ◌<◌}
pub use mathlib.Core.Path.{◌≡◌, refl, sym, ap, ap₂, ◌∙◌, subst, fun_ext}
pub use mathlib.Core.Logic.{◌≢◌, ◌↔◌, ◌⊎◌, inl, inr}
pub use mathlib.Core.Bool.{Bool, true, false, ◌&&◌, ◌||◌, not}
pub use mathlib.Core.Option.{Option, none, some}
pub use mathlib.Core.List.{List, [], ◌∷◌, ◌++◌, map}
pub use native.Mathlib.Omega.{arith}
