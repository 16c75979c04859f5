-- ===== src/Base.antt =====
-- Names and helpers that every other file shares: the libraries' names passed on, Boolean tests on
-- numbers, results with errors, finite maps, vectors and machine-width counters.
mod Tests
mod Results
mod Words
mod Maps
mod Vectors
mod Lists
mod OrderedSets
pub use Tests.*
unfoldable pub use Results.*
unfoldable pub use Words.*
pub use Maps.*
pub use Vectors.*
unfoldable pub use Lists.*
unfoldable pub use OrderedSets.*
pub use Prim.Native.Nat.{ℕ, zero, suc, ◌+◌, ◌-◌, ◌*◌, ◌/◌, ◌%◌, ◌≤◌, ◌<◌, min, max}
pub use mathlib.Core.Path.{◌≡◌, refl, sym, ap, ap₂, subst, ◌∙◌}
pub use mathlib.Core.Logic.{◌≢◌, ◌↔◌, ◌⊎◌, inl, inr}
pub use mathlib.Core.Bool.{Bool, true, false, not, ◌&&◌, ◌||◌}
pub use mathlib.Core.Option.{Option, none, some}
pub use mathlib.Core.List.{List, [], ◌∷◌, ◌++◌, map, reverse}
pub use native.Mathlib.Omega.{arith}
