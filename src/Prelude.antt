-- ===== src/Prelude.antt =====
-- What the modules share: library names passed on, tests, lists, Go strings, errors and results.
pub mod Tests
pub mod Lists
pub mod Str
pub mod Errors
pub mod Binary
pub mod Reader
pub mod Map
pub mod Int
pub mod Text
pub use Tests.*
pub use Lists.*
unfoldable pub use Str.*
unfoldable pub use Errors.*
pub use Prim.Native.Nat.{ℕ, zero, suc, ◌+◌, ◌-◌, ◌*◌, ◌/◌, ◌%◌, ◌^◌, ◌≤◌, ◌<◌}
pub use mathlib.Core.Path.{◌≡◌, refl, sym, ap, ◌∙◌}
pub use mathlib.Core.Logic.{◌≢◌, ◌↔◌, ◌⊎◌, inl, inr}
pub use mathlib.Core.Bool.{Bool, true, false, not, ◌&&◌, ◌||◌}
pub use mathlib.Core.Option.{Option, none, some}
pub use mathlib.Core.List.{List, [], ◌∷◌, ◌++◌, append-nil, append_assoc}
pub use native.Mathlib.Omega.{arith}
