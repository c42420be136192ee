-- ===== src/Common.antt =====
-- The names that every module shares: the libraries', passed on, and those of the children, which
-- model what the code takes from Python itself (tests, exceptions, lists, sets, dictionaries).
mod Tests
mod Outcome
mod Lists
mod Sets
mod Dicts
unfoldable pub use Tests.*
unfoldable pub use Outcome.*
unfoldable pub use Lists.*
unfoldable pub use Sets.*
unfoldable pub use Dicts.*
pub use Prim.Native.Nat.{ℕ, zero, suc, ◌+◌, ◌-◌, ◌*◌, ◌/◌, ◌%◌, ◌^◌, ◌≤◌, ◌<◌}
pub use Prim.Native.String.{String}
pub use mathlib.Core.Path.{◌≡◌, refl, sym, ap, ◌∙◌}
pub use mathlib.Core.Logic.{◌≢◌, ◌↔◌, ◌⊎◌, inl, inr}
pub use mathlib.Core.Bool.{Bool, true, false, not, xor, ◌&&◌, ◌||◌}
pub use mathlib.Core.Option.{Option, none, some}
pub use mathlib.Core.List.{List, [], ◌∷◌, ◌++◌, map}
pub use native.Mathlib.Omega.{arith}
