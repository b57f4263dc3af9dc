-- ===== src/Base.antt =====
-- Names that every module shares: the libraries' names, passed on, and the helpers below.
mod Tests
mod Lists
pub mod Fallible
pub mod Strings
pub mod Base64
pub mod Exec
pub mod Table
pub mod Sort
pub mod Integers
pub mod Cut
pub mod Runes
pub use Tests.*
pub use Lists.*
pub use Fallible.{
  Error, validation, oauth_authorization, oauth_refresh, invalid_slug, plain, panic, Result, ok,
  err, Result-cases, check,
}
unfoldable pub use Strings.*
pub use Prim.Native.Nat.{ℕ, zero, suc, ◌+◌, ◌-◌, ◌*◌, ◌/◌, ◌%◌, ◌^◌, ◌≤◌, ◌<◌, min}
pub use Prim.Native.String.{String}
pub use mathlib.Core.Path.{◌≡◌, refl, sym, ap, ◌∙◌}
pub use mathlib.Core.Logic.{◌≢◌, ◌↔◌, ◌⊎◌, inl, inr}
pub use mathlib.Core.Bool.{Bool, true, false, not, ◌&&◌, ◌||◌}
pub use mathlib.Core.Option.{Option, none, some}
pub use mathlib.Core.List.{List, [], ◌∷◌, ◌++◌, map, reverse}
pub use native.Mathlib.Omega.{arith}
