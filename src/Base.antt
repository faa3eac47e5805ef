-- ===== src/Base.antt =====
-- The names that the other modules share.
mod Tests
mod Lists
mod Texts
mod Maps
mod Decimal
pub use Tests.*
pub use Lists.*
pub use Texts.*
unfoldable pub use Texts.{dec_text, lower_trim, has_prefix, contains, text_ltb}
pub use Maps.*
unfoldable pub use Maps.{lookup, insert, delete, least_of, least}
pub use Decimal.*
unfoldable pub use Decimal.{value, all_digits, digits, ten_to}
pub use Prim.Native.Nat.{ℕ, zero, suc, ◌+◌, ◌-◌, ◌*◌, ◌/◌, ◌%◌, ◌^◌, ◌≤◌, ◌<◌, min}
pub use Prim.Native.String.{String}
pub use mathlib.Core.Path.{◌≡◌, refl, sym, ap, ◌∙◌, subst}
pub use mathlib.Core.Logic.{◌≢◌, ◌↔◌, ◌⊎◌, inl, inr, ite, if_pos, if_neg}
pub use mathlib.Core.Bool.{Bool, true, false, ◌&&◌, ◌||◌, not}
pub use mathlib.Core.Option.{Option, none, some}
pub use mathlib.Core.List.{List, [], ◌∷◌, ◌++◌, map}
pub use native.Mathlib.Omega.{arith}
unfoldable pub use native.Mathlib.Decide.{dec_lt, dec_le, ℕ_discrete}
