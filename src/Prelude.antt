-- ===== src/Prelude.antt =====
-- The names that the other modules share: the libraries', passed on, and those of the children.
mod Tests
mod Results
mod Lists
mod Maps
mod Sort
pub use Tests.*
unfoldable pub use Tests.{text_dec}
pub use Results.*
unfoldable pub use Results.{handle}
unfoldable pub use Sort.{text_le, insert, sort}
pub use Lists.*
unfoldable pub use Maps.{Map, get, put, delete, has, keys, values}
pub use Maps.{get-put, get-delete, get-put_self, get-put_ne, map_laws}
pub use Prim.Native.Nat.{ℕ, zero, suc, ◌+◌, ◌-◌, ◌*◌, ◌/◌, ◌%◌, ◌≤◌, ◌<◌}
pub use Prim.Native.String.{String}
pub use mathlib.Core.Path.{◌≡◌, refl, sym, ap, ◌∙◌, subst}
pub use mathlib.Core.Logic.{◌≢◌, ◌↔◌, ◌⊎◌, inl, inr}
pub use mathlib.Core.Bool.{Bool, true, false, not, ◌&&◌, ◌||◌}
pub use mathlib.Core.Option.{Option, none, some}
pub use mathlib.Core.List.{List, [], ◌∷◌, ◌++◌, map, reverse}
pub use native.Mathlib.Omega.{arith}
