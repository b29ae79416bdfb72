-- ===== src/Prelude.antt =====
-- The names that the other modules share: the libraries', passed on, and the helpers on tests,
-- lists and bits. Bytes are numbers below 256, a byte slice is a list of them.
mod Tests
mod Lists
mod Bits
mod Int
mod Assoc
unfoldable pub use Tests.*
pub use Lists.*
pub use Bits.*
pub use Int.*
unfoldable pub use Assoc.*
pub use Prim.Native.Nat.{ℕ, zero, suc, ◌+◌, ◌-◌, ◌*◌, ◌/◌, ◌%◌, ◌^◌, ◌≤◌, ◌<◌}
pub use Prim.Native.Nat.{bit_and, bit_or, bit_xor}
pub use mathlib.Core.Path.{◌≡◌, refl, sym, ap, ap₂, subst, ◌∙◌}
pub use mathlib.Core.Logic.{◌≢◌, ◌↔◌, ◌⊎◌, inl, inr}
pub use mathlib.Core.Bool.{Bool, true, false, not, ◌&&◌, ◌||◌}
pub use mathlib.Core.Option.{Option, none, some}
pub use mathlib.Core.List.{
  List, [], ◌∷◌, ◌++◌, map, Mem, mem-cons_self, mem-cons_of_mem, append-nil, append_assoc,
}
pub use native.Mathlib.Omega.{arith}
