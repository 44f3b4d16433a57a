-- ===== src/Common.antt =====
-- The names that the other modules share: those of the libraries, passed on, and helpers on
-- Boolean tests, lists, signed numbers and bags of numbers.
mod Tests
mod Lists
mod Int
mod Options
mod Texts
pub mod Maps
pub mod Bag
pub use Tests.*
pub use Lists.*
pub use Int.*
pub use Options.*
unfoldable pub use Texts.*
pub use Prim.Native.Nat.{ℕ, zero, suc, min, ◌+◌, ◌-◌, ◌*◌, ◌/◌, ◌%◌, ◌^◌, ◌≤◌, ◌<◌}
pub use mathlib.Core.Path.{◌≡◌, refl, sym, ap, ◌∙◌, subst, fun_ext}
pub use mathlib.Core.Logic.{◌≢◌, ◌↔◌, ◌⊎◌, inl, inr}
pub use mathlib.Core.Bool.{Bool, true, false, not, ◌&&◌, ◌||◌}
pub use mathlib.Core.Option.{Option, none, some}
pub use mathlib.Core.List.{List, [], ◌∷◌, ◌++◌, map, append-nil, append_assoc}
pub use native.Mathlib.Omega.{arith}
unfoldable pub use native.Mathlib.Decide.{dec_lt, ℕ_discrete}
