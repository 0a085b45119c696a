-- ===== src/Prelude.antt =====
-- The names that the other modules share: the libraries', passed on, and those of the children.
mod Tests
mod Lists
mod Text
mod GoMap
mod Keyed
mod Ordered
pub use Tests.*
pub use Lists.*
unfoldable pub use Text.{
  ◌⧺◌, is_empty, is_space, trim_space, drop_prefix, has_prefix, trim_prefix, contains, has_suffix,
  before_last, split_once, join, text_leb, sorted, text_discrete, LacksCode, lower_eq, lower,
}
unfoldable pub use GoMap.{Map, lookup, insert, value_at, insert_all, keys}
pub use Text.{append_assoc}
pub use GoMap.{lookup-insert, Absent}
unfoldable pub use Keyed.{Dict, get, put, delete}
pub use Ordered.{IsSorted, sorted-IsSorted, any-sorted}
pub use Keyed.{Eq, get-delete, get-put, put-delete}
pub use Prim.Native.Nat.{ℕ, zero, suc, ◌+◌, ◌-◌, ◌≤◌, ◌<◌}
pub use Prim.Native.Char.{Char, code}
pub use Prim.Native.String.{String}
pub use mathlib.Core.Path.{◌≡◌, refl, sym, ap, ◌∙◌, subst}
pub use mathlib.Core.Logic.{◌≢◌, ◌↔◌, ◌⊎◌, inl, inr}
pub use mathlib.Core.Bool.{Bool, true, false, not, ◌&&◌, ◌||◌}
pub use mathlib.Core.Option.{Option, none, some}
pub use mathlib.Core.List.{List, [], ◌∷◌, ◌++◌, map}
pub use native.Mathlib.Omega.{arith}
pub use text.Mathlib.Text.{◌==◌}
pub use text.Mathlib.TextEquality.{eq_iff}
pub use text.Mathlib.TextPositions.{eq_refl}
