-- ===== src/Prelude.antt =====
-- The names that the other modules share: the libraries', passed on, and those of the children
-- (Boolean tests, machine words, lists over the native numbers, tilings of byte ranges).
mod Tests
mod Words
mod Lists
mod Division
mod Filters
mod Sorting
mod Tiling
pub use Tests.*
pub use Words.*
pub use Lists.*
pub use Division.*
pub use Filters.*
unfoldable pub use Sorting.{insert_sorted, sort_by}
pub use Sorting.{
  sort_by-perm, is_empty-sort_by, InOrder, sort_by-InOrder, All-sort_by, All-sort_by_inv, Ascending,
  Ascending-find, Respects, sort_by-Ascending,
}
pub use Tiling.*
pub use Prim.Native.Nat.{
  ℕ, zero, suc, ◌+◌, ◌-◌, ◌*◌, ◌/◌, ◌%◌, ◌^◌, ◌≤◌, ◌<◌, min, max, compare, Ordering,
}
pub use Prim.Native.String.{String}
pub use mathlib.Core.Path.{◌≡◌, refl, sym, ap, subst, ◌∙◌}
pub use mathlib.Core.Logic.{◌≢◌, ◌↔◌, ◌⊎◌, inl, inr}
pub use mathlib.Core.Bool.{Bool, true, false, not, ◌&&◌, ◌||◌}
pub use mathlib.Core.Option.{Option, none, some}
pub use mathlib.Core.List.{List, [], ◌∷◌, ◌++◌, map, append-nil, append_assoc}
pub use native.Mathlib.Omega.{arith}
pub use text.Mathlib.Text.{◌==◌ as str_eq}
pub use text.Mathlib.TextEquality.{eq_iff}
