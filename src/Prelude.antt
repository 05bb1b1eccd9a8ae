-- ===== src/Prelude.antt =====
-- The names that the other modules share: the libraries', passed on, and those of the children:
-- Boolean tests, lists by native numbers, signed integers, byte texts and Go maps.
mod Tests
mod Lists
mod Int
mod Texts
mod Maps
pub use Tests.*
pub use Lists.*
pub use Int.*
pub use Texts.{Text, codes, text_eq_refl, text_eq→eq, text_eq_ne}
unfoldable pub use Texts.{text_eq}
unfoldable pub use Maps.{lookup, insert}
pub use Maps.{lookup-insert, lookup-insert_self, lookup-insert_ne, contains}
pub use Prim.Native.Nat.{ℕ, zero, suc, ◌+◌, ◌-◌, ◌*◌, ◌/◌, ◌%◌, ◌^◌, ◌≤◌, ◌<◌}
pub use Prim.Native.String.{String}
pub use mathlib.Core.Path.{◌≡◌, refl, sym, ap, ap₂, ◌∙◌, subst, fun_ext}
pub use mathlib.Core.Logic.{◌≢◌, ◌↔◌, ◌⊎◌, inl, inr}
pub use mathlib.Core.Bool.{Bool, true, false, not, ◌&&◌, ◌||◌}
pub use mathlib.Core.Option.{Option, none, some}
pub use mathlib.Core.List.{List, [], ◌∷◌, ◌++◌, map}
unfoldable pub use mathlib.Core.List.{reverse}
pub use native.Mathlib.Omega.{arith}
