-- ===== src/Common.antt =====
-- The names that the other modules share: those of the libraries, passed on, and the tests, lists
-- and bit laws of the child modules.
mod Tests
mod Lists
mod Bits
mod BitXor
mod Text
unfoldable pub use Tests.{flag_set}
pub use Tests.*
unfoldable pub use Lists.{same_bytes}
pub use Lists.*
pub use Bits.*
unfoldable pub use Text.{decimal_digits, decimal, is_digit, digits_value, strtoull, atoi}
pub use Text.*
pub use BitXor.*
pub use Prim.Native.Nat.{ℕ, zero, suc, ◌+◌, ◌-◌, ◌*◌, ◌/◌, ◌%◌, ◌^◌, ◌≤◌, ◌<◌}
pub use Prim.Native.Nat.{bit_and, bit_or, bit_xor}
pub use mathlib.Core.Path.{◌≡◌, refl, sym, ap, ap₂, ◌∙◌}
pub use mathlib.Core.Logic.{◌≢◌, ◌↔◌, ◌⊎◌, inl, inr}
pub use mathlib.Core.Bool.{Bool, true, false, not, ◌&&◌, ◌||◌}
pub use mathlib.Core.Option.{Option, none, some}
pub use mathlib.Core.List.{List, [], ◌∷◌, ◌++◌, map}
pub use native.Mathlib.Omega.{arith}
