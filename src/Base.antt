-- ===== src/Base.antt =====
-- The names that the other modules share: those of the libraries, passed on, and those of the
-- children below, which hold the tests on numbers, equality and order as interfaces, lists, texts
-- and sorting.
mod Tests
mod Interfaces
mod Lists
mod Texts
mod Sorting
mod Sets
mod Results
mod Dict
mod Bytes
pub use Tests.*
pub use Interfaces.*
pub use Lists.*
unfoldable pub use Texts.*
pub use Results.*
unfoldable pub use Bytes.*
unfoldable pub use Dict.*
pub use Sets.*
unfoldable pub use Sorting.*
pub use Prim.Native.Nat.{ℕ, zero, suc, ◌+◌, ◌-◌, ◌*◌, ◌/◌, ◌%◌, ◌^◌, ◌≤◌, ◌<◌}
pub use Prim.Native.String.{String}
pub use mathlib.Core.Path.{◌≡◌, refl, sym, ap, ap₂, subst, ◌∙◌}
pub use mathlib.Core.Logic.{◌≢◌, ◌↔◌, ◌⊎◌, inl, inr}
pub use mathlib.Core.Bool.{Bool, true, false, not, ◌&&◌, ◌||◌}
pub use mathlib.Core.Option.{Option, none, some}
pub use mathlib.Core.List.{List, [], ◌∷◌, ◌++◌, map, append-nil, append_assoc}
pub use native.Mathlib.Omega.{arith}
