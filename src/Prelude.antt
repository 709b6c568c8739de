-- ===== src/Prelude.antt =====
-- Names that all modules share: the libraries', passed on, and those of the children (tests on
-- numbers, lists over the native numbers, results of code that throws, texts, ordered maps).
mod Tests
mod Lists
mod Outcomes
mod Texts
pub mod OrderedMap
pub use Tests.*
pub use Lists.*
pub use Outcomes.*
pub use Texts.{bytes_eq_iff}
unfoldable pub use Texts.{codes, bytes_eq}
pub use Prim.Native.Nat.{ℕ, zero, suc, ◌+◌, ◌-◌, ◌*◌, ◌/◌, ◌%◌, ◌^◌, ◌≤◌, ◌<◌, min}
pub use mathlib.Core.Path.{◌≡◌, refl, sym, ap, ◌∙◌}
pub use mathlib.Core.Logic.{◌≢◌, ◌↔◌, ◌⊎◌, inl, inr}
pub use mathlib.Core.Bool.{Bool, true, false, not, ◌&&◌, ◌||◌}
pub use mathlib.Core.Option.{Option, none, some}
pub use mathlib.Core.List.{List, [], ◌∷◌, ◌++◌, map, append-nil, append_assoc}
pub use native.Mathlib.Omega.{arith}
