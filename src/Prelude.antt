-- ===== src/Prelude.antt =====
-- The names that the other modules share: the libraries', passed on, and those of the children.
mod Tests
mod Lists
pub mod Int
pub mod Texts
pub mod Maps
pub mod Floats
pub mod Sorting
pub mod Sums
pub mod Results
pub mod Ranking
pub mod Tokens
pub mod Infix
pub use Tests.*
pub use Lists.{
  length, take, Elem, All, length-append, length-take-le, length-keep-le, Elem-keep, Elem-keep_of,
  any_of_Elem, Elem-of_any, Elem-append, Elem-append_left, Elem-append_right, All_of_Elem,
  Elem-take, Elem-map,
}
unfoldable pub use Lists.{any, keep}
pub use Prim.Native.Nat.{ℕ, zero, suc, ◌+◌, ◌-◌, ◌*◌, ◌/◌, ◌%◌, ◌^◌, ◌≤◌, ◌<◌}
pub use mathlib.Core.Path.{◌≡◌, refl, sym, ap, ◌∙◌, subst}
pub use mathlib.Core.Logic.{◌≢◌, ◌↔◌, ◌⊎◌, inl, inr}
pub use mathlib.Core.Bool.{Bool, true, false, ◌&&◌, ◌||◌}
unfoldable pub use mathlib.Core.Bool.{not}
pub use mathlib.Core.Option.{Option, none, some}
pub use mathlib.Core.List.{List, [], ◌∷◌, ◌++◌, map}
pub use native.Mathlib.Omega.{arith}
