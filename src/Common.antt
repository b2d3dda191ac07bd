-- ===== src/Common.antt =====
-- What the components share: the library's names, tests on native numbers, lists measured by
-- them, JavaScript strings as lists of code units, and JSON values.
mod Tests
mod Lists
mod Text
mod Values
mod Host
mod Results
mod Http
pub use Tests.*
pub use Lists.*
unfoldable pub use Text.*
unfoldable pub use Values.*
pub use Host.*
pub use Results.*
pub use Http.*
pub use Prim.Native.Nat.{ℕ, zero, suc, ◌+◌, ◌-◌, ◌*◌, ◌/◌, ◌%◌, ◌^◌, ◌≤◌, ◌<◌}
pub use Prim.Native.String.{String}
pub use mathlib.Core.Path.{◌≡◌, refl, sym, ap, ◌∙◌, subst}
pub use mathlib.Core.Logic.{◌≢◌, ◌↔◌, ◌⊎◌, inl, inr}
pub use mathlib.Core.Bool.{Bool, true, false, not, ◌&&◌, ◌||◌}
pub use mathlib.Core.Option.{Option, none, some}
pub use mathlib.Core.List.{List, [], ◌∷◌, ◌++◌, map}
pub use native.Mathlib.Omega.{arith}
