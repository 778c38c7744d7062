-- ===== src/Base.antt =====
-- The names that every module shares: those of the libraries, passed on, and the helpers of the
-- two children. Numbers are native; a machine word keeps its wrap-around written out.
mod Tests
mod Lists
mod Checks
use Prim.Native.Nat.{◌^◌, ◌^◌, ◌^◌, ◌^◌, ◌^◌, ◌^◌, ◌^◌, ◌^◌}
pub use Tests.*
pub use Lists.*
pub use Checks.*
pub use Prim.Native.Nat.{ℕ, zero, suc, ◌+◌, ◌-◌, ◌*◌, ◌/◌, ◌%◌, ◌^◌, ◌≤◌, ◌<◌, min, max}
pub use mathlib.Core.Path.{◌≡◌, refl, sym, ap, ap₂, subst, ◌∙◌}
pub use mathlib.Core.Logic.{◌≢◌, ◌↔◌, ◌⊎◌, inl, inr}
pub use mathlib.Core.Bool.{Bool, true, false, not, ◌&&◌, ◌||◌}
pub use mathlib.Core.Option.{Option, none, some}
pub use mathlib.Core.List.{List, [], ◌∷◌, ◌++◌, map}
pub use native.Mathlib.Omega.{arith}
unfoldable pub use native.Mathlib.Decide.{dec_lt, ℕ_discrete}
