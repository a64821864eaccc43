-- ===== src/Prelude.antt =====
-- The names that the other modules share: the libraries' names, passed on, with the Boolean tests,
-- the lists and the machine integers of the children.
pub mod Tests
pub mod Lists
pub mod Slices
pub mod Lookup
pub mod Int
pub mod Counts
pub use Tests.*
pub use Lists.*
pub use Slices.*
pub use Lookup.*
pub use Int.*
pub use Counts.*
pub use Prim.Native.Nat.{ℕ, zero, suc, ◌+◌, ◌-◌, ◌*◌, ◌/◌, ◌%◌, ◌^◌, ◌≤◌, ◌<◌, min}
pub use mathlib.Core.Path.{◌≡◌, refl, sym, ap, ap₂, ◌∙◌, subst}
pub use mathlib.Core.Logic.{◌≢◌, ◌↔◌, ◌⊎◌, inl, inr}
pub use mathlib.Core.Bool.{Bool, true, false, not, ◌&&◌, ◌||◌}
pub use mathlib.Core.Option.{Option, none, some}
pub use mathlib.Core.List.{List, [], ◌∷◌, ◌++◌, map, append_assoc, append-nil}
pub use native.Mathlib.Omega.{arith}
