-- ===== src/Prelude.antt =====
-- Names and lemmas that the components share: the libraries' names, passed on, Boolean tests and
-- lists over the native numbers, integers, arrays as functions, and remainders.
mod Tests
mod Lists
mod Arrays
mod Options
pub mod Int
pub mod Mod
pub use Tests.*
pub use Lists.*
pub use Arrays.*
pub use Options.*
pub use Prim.Native.Nat.{ℕ, zero, suc, ◌+◌, ◌-◌, ◌*◌, ◌/◌, ◌%◌, ◌^◌, ◌≤◌, ◌<◌, min, max}
pub use mathlib.Core.Path.{◌≡◌, refl, sym, ap, ◌∙◌, subst}
pub use mathlib.Core.Logic.{◌≢◌, ◌↔◌, ◌⊎◌, inl, inr}
pub use mathlib.Core.Bool.{Bool, true, false, not, ◌&&◌, ◌||◌}
pub use mathlib.Core.Option.{Option, none, some}
pub use mathlib.Core.List.{List, [], ◌∷◌, ◌++◌, map, append_assoc}
pub use native.Mathlib.Omega.{arith}
unfoldable pub use native.Mathlib.Decide.{dec_lt, ℕ_discrete}
