-- ===== src/Base.antt =====
-- The names that every module shares: the libraries' own, Boolean tests, lists measured by native
-- numbers, C integers, byte strings and the monad of C commands.
mod Tests
mod Lists
mod Int
mod Memory
mod Command
mod Text
pub mod Outcome
pub mod Maybe
pub use Tests.*
pub use Lists.*
pub use Int.*
unfoldable pub use Memory.*
pub use Command.*
pub use Text.*
pub use Outcome.*
pub use Prim.Native.Nat.{ℕ, zero, suc, ◌+◌, ◌-◌, ◌*◌, ◌/◌, ◌%◌, ◌^◌, ◌≤◌, ◌<◌}
pub use mathlib.Core.Path.{◌≡◌, refl, sym, ap, ap₂, ◌∙◌}
pub use mathlib.Core.Logic.{◌≢◌, ◌↔◌, ◌⊎◌, inl, inr}
pub use mathlib.Core.Bool.{Bool, true, false, not, ◌&&◌, ◌||◌}
pub use mathlib.Core.Option.{Option, none, some}
pub use mathlib.Core.List.{List, [], ◌∷◌, ◌++◌, map, append_assoc, append-nil}
pub use native.Mathlib.Omega.{arith}
