-- ===== src/Prelude.antt =====
-- Names shared by every module: the library's, passed on, and those of the children below.
mod Tests
mod Lists
mod Str
mod Dicts
mod Results
pub use Tests.*
pub use Lists.*
unfoldable pub use Dicts.{lookup, insert}
pub use Dicts.{Dict, lookup-insert}
pub use Results.*
unfoldable pub use Str.{text_eq, contains, strip, text_lt}
pub use Str.{
  Text, Bytes, codes, is_space, StartsClean, IsClean, text_eq_iff, strip-IsClean, text_lt_irrefl,
  text_lt_trans, text_lt_total,
}
pub use Prim.Native.Nat.{ℕ, zero, suc, ◌+◌, ◌-◌, ◌*◌, ◌/◌, ◌%◌, ◌^◌, ◌≤◌, ◌<◌, max, min}
pub use mathlib.Core.Path.{◌≡◌, refl, sym, ap, ap₂, ◌∙◌, subst}
pub use mathlib.Core.Logic.{◌≢◌, ◌↔◌, ◌⊎◌, inl, inr, ⊎_elim}
pub use mathlib.Core.Bool.{Bool, true, false, not, ◌&&◌, ◌||◌}
pub use mathlib.Core.Option.{Option, none, some}
pub use mathlib.Core.List.{List, [], ◌∷◌, ◌++◌, map, reverse}
pub use native.Mathlib.Omega.{arith}
