-- ===== src/Common.antt =====
-- The names that the other modules share: the libraries', passed on, and those of the children.
mod Numbers
mod Lists
mod Maps
mod Strings
mod Float
mod FloatSum
mod Int
pub use Numbers.*
pub use Lists.*
unfoldable pub use Maps.{lookup, insert, delete}
pub use Maps.*
unfoldable pub use Strings.{Text-discrete, contains, decimal, join, space_width}
pub use Strings.*
unfoldable pub use Float.{float_lt, float_le, float_ratio}
pub use Float.*
unfoldable pub use FloatSum.{float_add, float_half}
pub use FloatSum.*
pub use Int.*
pub use Prim.Native.Nat.{ℕ, zero, suc, ◌+◌, ◌-◌, ◌*◌, ◌/◌, ◌%◌, ◌^◌, ◌≤◌, ◌<◌, min, max}
pub use mathlib.Core.Path.{◌≡◌, refl, sym, ap, subst, ◌∙◌}
pub use mathlib.Core.Logic.{◌≢◌, ◌↔◌, ◌⊎◌, inl, inr, ite, dite, if_pos, if_neg}
pub use mathlib.Core.Bool.{Bool, true, false, not, ◌&&◌, ◌||◌}
pub use mathlib.Core.Option.{Option, none, some}
pub use mathlib.Core.List.{List, [], ◌∷◌, ◌++◌, map, append-nil, append_assoc}
pub use native.Mathlib.Omega.{arith}
unfoldable pub use native.Mathlib.Decide.{dec_lt, dec_le, ℕ_discrete}
