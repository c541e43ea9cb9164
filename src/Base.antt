-- ===== src/Base.antt =====
-- The names that the other modules share: library names passed on, Boolean tests, lists, sets of
-- numbers, dictionaries, and JavaScript strings as lists of code units.
mod Tests
mod Lists
mod Sets
mod Dicts
mod Strings
pub use Tests.*
pub use Lists.*
pub use Sets.*
pub use Dicts.*
pub use Strings.*
pub use Prim.Native.Nat.{ℕ, zero, suc, ◌+◌, ◌-◌, ◌*◌, ◌/◌, ◌%◌, ◌^◌, ◌≤◌, ◌<◌}
pub use mathlib.Core.Path.{◌≡◌, refl, sym, ap, ◌∙◌}
pub use mathlib.Core.Logic.{◌≢◌, ◌↔◌, ◌⊎◌, inl, inr}
pub use mathlib.Core.Bool.{Bool, true, false, not, ◌&&◌, ◌||◌}
pub use mathlib.Core.Option.{Option, none, some}
pub use mathlib.Core.List.{List, [], ◌∷◌, ◌++◌, map, append_assoc, append-nil}
pub use native.Mathlib.Omega.{arith}
