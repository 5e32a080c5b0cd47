-- ===== src/Prelude.antt =====
-- The names that the modules share: the libraries', passed on, and those of the children: tests on
-- numbers, lists measured by native numbers, 64-bit words, signed integers and texts.
mod Tests
mod Lists
mod Words
mod Int
mod Text
unfoldable pub use Tests.*
pub use Lists.*
unfoldable pub use Words.*
pub use Int.*
unfoldable pub use Text.*
pub use Prim.Native.Nat.{
  ℕ, zero, suc, ◌+◌, ◌-◌, ◌*◌, ◌/◌, ◌%◌, ◌^◌, ◌≤◌, ◌<◌, min, max, bit_and, bit_or, bit_xor,
}
pub use mathlib.Core.Path.{◌≡◌, refl, sym, ap, ◌∙◌}
pub use mathlib.Core.Logic.{◌≢◌, ◌↔◌, ◌⊎◌, inl, inr}
pub use mathlib.Core.Bool.{Bool, true, false, not, ◌&&◌, ◌||◌}
pub use mathlib.Core.Option.{Option, none, some}
pub use mathlib.Core.List.{List, [], ◌∷◌, ◌++◌, map}
pub use native.Mathlib.Omega.{arith}
