-- ===== src/Base.antt =====
-- The names that all modules share: those of the libraries, passed on, and the helpers of the
-- children. Nothing here models code of the repository but the Go idioms in Text, Dict and Effect.
pub mod Utf8
mod Tests
mod Lists
pub mod Text
pub mod Split
pub mod Dict
pub mod Maps
pub mod Decimal
pub mod Effect
pub mod Atoi
pub mod Int
pub use Tests.*
pub use Lists.*
pub use Prim.Native.Nat.{ℕ, zero, suc, ◌+◌, ◌-◌, ◌*◌, ◌/◌, ◌%◌, ◌^◌, ◌≤◌, ◌<◌}
pub use mathlib.Core.Path.{◌≡◌, refl, sym, ap, ◌∙◌, subst}
pub use mathlib.Core.Logic.{◌≢◌, ◌↔◌, ◌⊎◌, inl, inr}
pub use mathlib.Core.Bool.{Bool, true, false, not, ◌&&◌, ◌||◌}
pub use mathlib.Core.Option.{Option, none, some}
pub use mathlib.Core.List.{List, [], ◌∷◌, ◌++◌, map}
pub use native.Mathlib.Omega.{arith}
