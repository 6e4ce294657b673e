-- ===== src/Base.antt =====
-- The names that every part shares: the libraries', passed on, and those of the children
-- (Boolean tests, integers and machine words, texts, Go maps, instants and durations, results).
mod Tests
mod Int
mod Text
mod Maps
mod Clock
mod Atoi
mod Results
mod Rfc3339
pub use Tests.*
unfoldable pub use Results.*
unfoldable pub use Rfc3339.*
unfoldable pub use Int.*
unfoldable pub use Atoi.*
pub use Text.*
unfoldable pub use Maps.*
unfoldable pub use Clock.*
pub use Prim.Native.Nat.{ℕ, zero, suc, ◌+◌, ◌-◌, ◌*◌, ◌/◌, ◌%◌, ◌^◌, ◌≤◌, ◌<◌}
pub use Prim.Native.String.{String}
pub use mathlib.Core.Path.{◌≡◌, refl, sym, ap, ◌∙◌}
pub use mathlib.Core.Logic.{◌≢◌, ◌↔◌, ◌⊎◌, inl, inr}
pub use mathlib.Core.Bool.{Bool, true, false, not, ◌&&◌, ◌||◌}
pub use mathlib.Core.Option.{Option, none, some}
pub use mathlib.Core.List.{List, [], ◌∷◌, ◌++◌, map}
pub use native.Mathlib.Omega.{arith}
