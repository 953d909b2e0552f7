-- ===== src/Base.antt =====
-- The names that the other modules share: the libraries', passed on, and those of the children.
mod Tests
mod Lists
mod Assoc
mod Results
mod Sort
mod Numerals
mod Pigeonhole
mod Texts
pub mod Int
pub use Tests.*
pub use Lists.*
pub use Assoc.*
pub use Results.*
pub use Texts.{Text, codes, text_equals, text_equals_iff, text_eq}
unfoldable pub use Texts.{is_space, trim_left, trim_right, trim_space, trim_string, to_lower}
pub use Pigeonhole.{distinct, within, length-within-le}
pub use Numerals.{decimal_injective}
unfoldable pub use Numerals.{decimal}
pub use Sort.{Falls, sort_slice-perm, sort_slice-map, sort_slice-All, sort_slice-Falls}
unfoldable pub use Sort.{sort_slice}
pub use Prim.Native.Nat.{ℕ, zero, suc, ◌+◌, ◌-◌, ◌*◌, ◌/◌, ◌%◌, ◌≤◌, ◌<◌}
pub use Prim.Native.String.{String}
pub use mathlib.Core.Path.{◌≡◌, refl, sym, ap, ◌∙◌}
pub use mathlib.Core.Logic.{◌≢◌, ◌↔◌, ◌⊎◌, inl, inr}
pub use mathlib.Core.Bool.{Bool, true, false, not, ◌&&◌, ◌||◌}
pub use mathlib.Core.Option.{Option, none, some}
pub use mathlib.Core.List.{List, [], ◌∷◌, ◌++◌, map}
pub use native.Mathlib.Omega.{arith}
pub use text.Mathlib.TextEquality.{eq_iff}
