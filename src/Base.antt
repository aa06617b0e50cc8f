-- ===== src/Base.antt =====
-- The names and helpers that the other modules share: the libraries', passed on, texts as lists of
-- bytes, signed integers, tests that read a decision, and lemmas on lists and options.
mod Ints
mod Bytes
mod Tests
mod Lists
mod Rows
unfoldable pub use Ints.*
unfoldable pub use Bytes.*
unfoldable pub use Tests.*
unfoldable pub use Lists.*
pub use Rows.*
pub use Prim.Native.Nat.{ℕ, zero, suc, ◌+◌, ◌-◌, ◌*◌, ◌/◌, ◌%◌, ◌^◌, ◌≤◌, ◌<◌}
pub use mathlib.Core.Path.{◌≡◌, refl, sym, ap, ◌∙◌, subst}
pub use mathlib.Core.Logic.{◌≢◌, ◌↔◌, ◌⊎◌, inl, inr}
pub use mathlib.Core.Bool.{Bool, true, false, not, ◌&&◌, ◌||◌}
pub use mathlib.Core.Option.{Option, none, some}
pub use mathlib.Core.List.{List, [], ◌∷◌, ◌++◌, map}
pub use native.Mathlib.Omega.{arith}
unfoldable pub use native.Mathlib.Decide.{dec_lt, dec_le, ℕ_discrete}
