-- ===== src/Prelude.antt =====
-- The names that the other modules share: those of the libraries, passed on, and the Boolean
-- tests, list operations, machine words and error results of the children.
mod Tests
mod Lists
pub mod Word
pub mod Outcome
pub mod Cursor
pub mod Bits
pub use Tests.*
unfoldable pub use Lists.*
pub use Prim.Native.Nat.{ℕ, zero, suc, ◌+◌, ◌-◌, ◌*◌, ◌/◌, ◌%◌, ◌^◌, ◌≤◌, ◌<◌, min}
pub use mathlib.Core.Path.{◌≡◌, refl, sym, ap, ◌∙◌}
pub use mathlib.Core.Logic.{◌≢◌, ◌↔◌, ◌⊎◌, inl, inr}
pub use mathlib.Core.Bool.{Bool, true, false, not, ◌&&◌, ◌||◌}
pub use mathlib.Core.Option.{Option, none, some}
pub use mathlib.Core.List.{List, [], ◌∷◌, ◌++◌, map, reverse_aux, append-nil, append_assoc}
pub use native.Mathlib.Omega.{arith}
