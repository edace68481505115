-- ===== src/Base.antt =====
-- Names that the other modules share: the libraries', passed on, and those of the children.
mod Tests
mod Lists
pub mod Bits
pub mod Pow
pub mod Result
pub mod Maps
pub mod Text
pub mod Int
pub use Tests.*
pub use Lists.*
pub use Prim.Native.Nat.{ℕ, zero, suc, ◌+◌, ◌-◌, ◌*◌, ◌/◌, ◌%◌, ◌^◌, ◌≤◌, ◌<◌, max, min}
pub use mathlib.Core.Path.{◌≡◌, refl, sym, ap, ◌∙◌, ◌≡⟨◌⟩◌, ◌∎, subst}
pub use mathlib.Core.Logic.{◌≢◌, ◌↔◌, ◌⊎◌, inl, inr}
pub use mathlib.Core.Bool.{Bool, true, false, ◌&&◌, ◌||◌, not}
pub use mathlib.Core.Option.{Option, none, some}
pub use mathlib.Core.List.{List, [], ◌∷◌, ◌++◌, map, append-nil, append_assoc}
pub use native.Mathlib.Omega.{arith}
