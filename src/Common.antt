-- ===== src/Common.antt =====
-- Names shared by all modules: the libraries', passed on, and those of the children.
mod Tests
mod Lists
mod Ints
mod Texts
mod Maps
pub use Tests.*
pub use Lists.*
pub use Ints.*
unfoldable pub use Texts.{digit, decimal, show_nat, show_int, contains}
unfoldable pub use Maps.{lookup, insert, delete}
pub use Maps.{Map, lookup-insert, lookup-delete}
pub use Prim.Native.Nat.{ℕ, zero, suc, ◌+◌, ◌-◌, ◌*◌, ◌/◌, ◌%◌, ◌^◌, ◌≤◌, ◌<◌}
pub use Prim.Native.String.{String}
pub use mathlib.Core.Path.{◌≡◌, refl, sym, ap, ap₂, ◌∙◌, subst}
pub use mathlib.Core.Logic.{◌≢◌, ◌↔◌, ◌⊎◌, inl, inr}
pub use mathlib.Core.Bool.{Bool, true, false, ◌&&◌, ◌||◌, not}
pub use mathlib.Core.Option.{Option, none, some}
pub use mathlib.Core.List.{List, [], ◌∷◌, ◌++◌, map, append_assoc, append-nil}
pub use native.Mathlib.Omega.{arith}
unfoldable pub use native.Mathlib.Decide.{dec_lt, ℕ_discrete}
