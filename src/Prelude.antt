-- ===== src/Prelude.antt =====
-- The names that the other modules share: the libraries', passed on, and those of the children.
-- Text is the Go string as its bytes; Maps the Go map with string keys; Words the uint64
-- arithmetic; Int the signed integers; Floats the float64; Sort the strings of sort.Strings; Counts the occurrences of a string.
pub mod Tests
pub mod Lists
pub mod Text
pub mod Maps
pub mod Words
pub mod Int
pub mod Sort
pub mod Counts
pub mod Floats
pub mod Results
pub mod Contexts
pub use Tests.*
pub use Lists.*
pub use Prim.Native.Nat.{ℕ, zero, suc, ◌+◌, ◌-◌, ◌*◌, ◌/◌, ◌%◌, ◌^◌, ◌≤◌, ◌<◌}
pub use mathlib.Core.Path.{◌≡◌, refl, sym, ap, ◌∙◌, subst}
pub use mathlib.Core.Logic.{◌≢◌, ◌↔◌, ◌⊎◌, inl, inr}
pub use mathlib.Core.Bool.{Bool, true, false, not, ◌&&◌, ◌||◌}
pub use mathlib.Core.Option.{Option, none, some}
pub use mathlib.Core.List.{List, [], ◌∷◌, ◌++◌, map}
pub use native.Mathlib.Omega.{arith}
