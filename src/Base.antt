-- ===== src/Base.antt =====
-- The names that the other modules share: those of the libraries, passed on, and those of the
-- children: Boolean tests, lists and text (Go strings as lists of bytes).
mod Tests
mod Lists
mod Strings
mod Trimming
mod Membership
mod Rows
mod Integers
mod Sorting
mod Escapes
pub use Tests.*
unfoldable pub use Lists.*
unfoldable pub use Strings.*
pub use Trimming.*
pub use Membership.*
pub use Rows.*
unfoldable pub use Integers.*
unfoldable pub use Sorting.*
unfoldable pub use Escapes.*
pub use Prim.Native.Nat.{ℕ, zero, suc, ◌+◌, ◌-◌, ◌*◌, ◌/◌, ◌%◌, ◌^◌, ◌≤◌, ◌<◌}
pub use Prim.Native.String.{String}
pub use mathlib.Core.Path.{◌≡◌, refl, sym, ap, ◌∙◌, subst}
pub use mathlib.Core.Logic.{◌≢◌, ◌↔◌, ◌⊎◌, inl, inr}
pub use mathlib.Core.Bool.{Bool, true, false, ◌&&◌, ◌||◌, not}
pub use mathlib.Core.Option.{Option, none, some}
pub use mathlib.Core.List.{List, [], ◌∷◌, ◌++◌, map}
pub use native.Mathlib.Omega.{arith}
pub use text.Mathlib.Text.{◌==◌ as str_eq}
