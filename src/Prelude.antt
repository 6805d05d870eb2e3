-- ===== src/Prelude.antt =====
-- The names that the other modules share: the libraries', passed on, and those of the children.
mod Tests
mod Lists
mod Calls
mod Sort
pub mod Maps
mod Text
pub mod Numbers
pub use Tests.*
pub use Lists.*
pub use Calls.*
pub use Sort.*
pub use Maps.*
unfoldable pub use Maps.{lookup, insert, retain, remove, adjust, retain_by}
unfoldable pub use Sort.{sort_by}
pub use Text.*
unfoldable pub use Text.{
  trim_left, trim_right, starts_with, has_text, ends_with, str_less, join, cut_at,
}
pub use Numbers.*
unfoldable pub use Numbers.{decimal}
unfoldable pub use Tests.{str_eq}
pub use Prim.Native.Nat.{ℕ, zero, suc, ◌+◌, ◌-◌, ◌*◌, ◌/◌, ◌%◌, ◌^◌, ◌≤◌, ◌<◌, min, max}
pub use Prim.Native.String.{String}
pub use mathlib.Core.Path.{◌≡◌, refl, sym, ap, ap₂, subst, ◌∙◌}
pub use mathlib.Core.Logic.{◌≢◌, ◌↔◌, ◌⊎◌, inl, inr}
pub use mathlib.Core.Bool.{Bool, true, false, not, ◌&&◌, ◌||◌}
pub use mathlib.Core.Option.{Option, none, some}
pub use mathlib.Core.List.{List, [], ◌∷◌, ◌++◌, map, reverse, append-nil, append_assoc}
pub use native.Mathlib.Omega.{arith}
