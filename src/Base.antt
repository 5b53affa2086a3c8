-- ===== src/Base.antt =====
-- The names that the other modules share: the libraries', passed on, Boolean tests, results, texts
-- and lists. Nothing here models a file of the repository by itself; `Text` and `Decimal` are the
-- parts of Rust's standard library on `str` and on integers that the crates use.
mod Tests
mod Fallible
mod Lists
pub mod Text
pub mod Decimal
pub mod Exec
mod Integer
pub mod Words
unfoldable pub use Tests.*
pub use Fallible.*
pub use Integer.*
unfoldable pub use Lists.*
pub use Prim.Native.Nat.{ℕ, zero, suc, ◌+◌, ◌-◌, ◌*◌, ◌/◌, ◌%◌, ◌^◌, ◌≤◌, ◌<◌, min, max}
pub use Prim.Native.String.{String, ◌++◌ as ◌<>◌}
pub use mathlib.Core.Path.{◌≡◌, refl, sym, ap, ◌∙◌, subst, ◌≡⟨◌⟩◌, ◌∎}
pub use mathlib.Core.Logic.{◌≢◌, ◌↔◌, ◌⊎◌, inl, inr}
pub use mathlib.Core.Bool.{Bool, true, false, not, ◌&&◌, ◌||◌}
pub use mathlib.Core.Option.{Option, none, some}
pub use mathlib.Core.List.{List, [], ◌∷◌, ◌++◌, map}
pub use native.Mathlib.Omega.{arith}
pub use text.Mathlib.TextEquality.{eq_iff}
