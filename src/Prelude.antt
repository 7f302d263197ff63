-- ===== src/Prelude.antt =====
-- The names that the other modules share: the libraries', passed on, and those of the children.
mod Tests
mod Lists
mod Equality
mod Exceptions
mod Dicts
mod PyList
pub mod Unique
pub mod Text
pub mod Sorting
pub mod Int
pub use Tests.*
pub use Lists.*
unfoldable pub use Dicts.{elem, get, has, put, remove}
pub use Dicts.{Dict, keys, get-put, get-remove_ne, has-get}
pub use Equality.{Eq, ◌=?◌, beq_self}
unfoldable pub use Equality.{nat_eq, string_eq}
pub use Exceptions.*
pub use Prim.Native.Nat.{ℕ, zero, suc, ◌+◌, ◌-◌, ◌*◌, ◌/◌, ◌%◌, ◌^◌, ◌≤◌, ◌<◌, min, max}
pub use Prim.Native.String.{String}
pub use mathlib.Core.Path.{◌≡◌, refl, sym, ap, ◌∙◌, subst}
pub use mathlib.Core.Logic.{◌≢◌, ◌↔◌, ◌⊎◌, inl, inr}
pub use mathlib.Core.Bool.{Bool, true, false, ◌&&◌, ◌||◌, not}
pub use mathlib.Core.Option.{Option, none, some}
pub use mathlib.Core.List.{List, [], ◌∷◌, ◌++◌, map, append_assoc, append-nil}
pub use native.Mathlib.Omega.{arith}
pub use text.Mathlib.TextEquality.{eq_iff}
pub use PyList.{All, nth-append, insert_at-append, All-append, All-append_left, All-append_right}
pub use PyList.{All-map}
unfoldable pub use PyList.{nth, pop_at, insert_at, erase, index}
