-- ===== src/Base.antt =====
-- The names that the modules share: the libraries', passed on, and those of the children.
-- Booleans has Boolean tests, Lists the lists of the program over the native numbers, Text the byte
-- strings, Outcome the outcomes of C++ code, Families the functions from numbers.
mod Booleans
mod Lists
mod Text
mod Outcome
mod Families
pub use Booleans.*
pub use Lists.*
unfoldable pub use Text.*
pub use Outcome.*
pub use Families.*
pub use Prim.Native.Nat.{ℕ, zero, suc, ◌+◌, ◌-◌, ◌*◌, ◌/◌, ◌%◌, ◌^◌, ◌≤◌, ◌<◌}
pub use mathlib.Core.Path.{◌≡◌, refl, sym, ap, ◌∙◌, subst}
pub use mathlib.Core.Logic.{◌≢◌, ◌↔◌, ◌⊎◌, inl, inr}
pub use mathlib.Core.Bool.{Bool, true, false, not, ◌&&◌, ◌||◌}
pub use mathlib.Core.Option.{Option, none, some}
pub use mathlib.Core.List.{List, [], ◌∷◌, ◌++◌, append-nil, append_assoc}
pub use native.Mathlib.Omega.{arith}
