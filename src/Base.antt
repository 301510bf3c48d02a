-- ===== src/Base.antt =====
-- The names that the other modules share: the libraries' names passed on, Boolean tests, lists
-- over the native numbers, texts, ordered maps, and results with state.
mod Tests
mod Lists
mod Chars
mod Outcome
mod Keyed
mod Ordered
pub mod Clock
pub mod Occurrences
pub mod Fnv
pub mod Utf8
unfoldable pub use Tests.*
unfoldable pub use Lists.*
unfoldable pub use Chars.*
unfoldable pub use Outcome.*
unfoldable pub use Keyed.*
unfoldable pub use Ordered.*
pub use Prim.Native.Nat.{ℕ, zero, suc, ◌+◌, ◌-◌, ◌*◌, ◌/◌, ◌%◌, ◌^◌, ◌≤◌, ◌<◌, min, max}
pub use mathlib.Core.Path.{◌≡◌, refl, sym, ap, ◌∙◌}
pub use mathlib.Core.Logic.{◌≢◌, ◌↔◌, ◌⊎◌, inl, inr}
pub use mathlib.Core.Bool.{Bool, true, false, not, ◌&&◌, ◌||◌}
pub use mathlib.Core.Option.{Option, none, some}
pub use mathlib.Core.List.{List, [], ◌∷◌, ◌++◌, map}
pub use native.Mathlib.Omega.{arith}
