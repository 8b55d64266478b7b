-- ===== src/Base.antt =====
-- The names that the modules share: the libraries', passed on, and those of the children.
mod Tests
mod Lists
mod Table
mod Http
mod Text
pub use Tests.*
pub use Lists.{length, drop, take, All, delete}
pub use Lists.{length-append, count_if-append, length-select, count_if_mono, count_if-update-le}
pub use Lists.{count_if-update, count_if-select-le, first-none, first-some, count_if_pos}
pub use Lists.{length-drop, count_if-first, count_if_zero}
unfoldable pub use Lists.{select, first, any, count_if, update}
pub use Table.{
  Keyed, is_key, has_id, get_opt, get-put, get-put_self, get-put_other, exists, exists-put,
  exists-remove, get-remove, get_id,
}
unfoldable pub use Table.{get, put, remove}
pub use Http.*
unfoldable pub use Text.{strip, lstrip, rstrip, is_space, is_blank, take_chars}
pub use Prim.Native.Nat.{ℕ, zero, suc, ◌+◌, ◌-◌, ◌*◌, ◌/◌, ◌%◌, ◌^◌, ◌≤◌, ◌<◌, min, max}
pub use Prim.Native.String.{String, ◌++◌ as str_append}
pub use mathlib.Core.Path.{◌≡◌, refl, sym, ap, ◌∙◌, fun_ext, subst}
pub use mathlib.Core.Logic.{◌≢◌, ◌↔◌, ◌⊎◌, inl, inr}
pub use mathlib.Core.Bool.{Bool, true, false, not, ◌&&◌, ◌||◌}
pub use mathlib.Core.Option.{Option, none, some}
pub use mathlib.Core.List.{List, [], ◌∷◌, ◌++◌, map}
pub use native.Mathlib.Omega.{arith}
pub use text.Mathlib.Text.{◌==◌ as str_eq}
pub use text.Mathlib.TextEquality.{eq_iff}
pub use text.Mathlib.TextPositions.{eq_refl}
