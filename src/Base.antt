-- ===== src/Base.antt =====
-- The shared helpers: names of the library passed on, tests, lists, bits, results and integers.
mod Tests
mod Lists
mod Bits
pub mod Result
pub mod Int
pub use Tests.*
pub use Lists.*
unfoldable pub use Bits.*
pub use Prim.Native.Nat.{bit_and, bit_or}
pub use Prim.Native.Nat.{ℕ, zero, suc, ◌+◌, ◌-◌, ◌*◌, ◌/◌, ◌%◌, ◌^◌, ◌≤◌, ◌<◌, min}
pub use mathlib.Core.Path.{◌≡◌, refl, subst, sym, ap, ◌∙◌, fun_ext}
pub use mathlib.Core.Logic.{◌≢◌, ◌↔◌, ◌⊎◌, inl, inr}
pub use mathlib.Core.Bool.{Bool, true, false, not, ◌&&◌, ◌||◌}
pub use mathlib.Core.Option.{Option, none, some}
pub use mathlib.Core.List.{List, [], ◌∷◌, ◌++◌, map}
pub use native.Mathlib.Omega.{arith}
