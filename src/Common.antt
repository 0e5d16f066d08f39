-- ===== src/Common.antt =====
-- The names that the components share: the libraries', passed on, and those of the children.
mod Tests
mod Results
mod Lists
mod Strings
mod Words
pub mod Integers
mod Maps
mod Sorting
mod Search
mod Position
pub use Tests.*
pub use Results.*
pub use Lists.*
unfoldable pub use Strings.*
unfoldable pub use Integers.*
unfoldable pub use Words.*
unfoldable pub use Sorting.*
unfoldable pub use Search.*
unfoldable pub use Position.*
unfoldable pub use Maps.*
pub use Prim.Native.Nat.{ℕ, zero, suc, ◌+◌, ◌-◌, ◌*◌, ◌/◌, ◌%◌, ◌^◌, ◌≤◌, ◌<◌}
pub use mathlib.Core.Path.{◌≡◌, refl, sym, ap, ◌∙◌, fun_ext, subst}
pub use mathlib.Core.Logic.{◌≢◌, ◌↔◌, ◌⊎◌, inl, inr}
pub use mathlib.Core.Bool.{Bool, true, false, ◌&&◌, ◌||◌, not}
pub use mathlib.Core.Option.{Option, none, some}
pub use mathlib.Core.List.{List, [], ◌∷◌, ◌++◌, map, append_assoc, append-nil, map-append, reverse}
pub use native.Mathlib.Omega.{arith}
