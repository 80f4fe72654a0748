-- ===== src/Base.antt =====
-- The names that every part of the model shares: the libraries', passed on, and those of the
-- children, which read Boolean tests and lists over the native numbers.
mod Tests
mod Lists
mod Text
mod Utf8
pub use Tests.*
pub use Lists.*
pub use Text.*
unfoldable pub use Utf8.*
pub use Prim.Native.Nat.{ℕ, zero, suc, ◌+◌, ◌-◌, ◌*◌, ◌/◌, ◌%◌, ◌^◌, ◌≤◌, ◌<◌}
pub use mathlib.Core.Path.{◌≡◌, refl, sym, ap, ◌∙◌, subst}
pub use mathlib.Core.Logic.{◌≢◌, ◌↔◌, ◌⊎◌, inl, inr}
pub use mathlib.Core.Bool.{Bool, true, false, not, ◌&&◌, ◌||◌}
pub use mathlib.Core.Option.{Option, none, some}
pub use mathlib.Core.List.{List, [], ◌∷◌, ◌++◌, map}
pub use native.Mathlib.Omega.{arith}

abbrev pub Bytes : Type 0
Bytes = List ℕ
