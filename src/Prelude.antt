-- ===== src/Prelude.antt =====
-- The names that the other modules share: the libraries', passed on, and those of the children.
mod Tests
mod Lists
mod Texts
mod Int
mod Maps
pub use Tests.{
  ltb, leb, ◌==◌, if◌then◌else◌, ltb→lt, lt→ltb, leb→le, ==_iff, ==_refl, Bool-cases, Option-cases,
  if-keeps, if-cases,
}
unfoldable pub use Lists.{length, is_empty, take, find_if, count_if, any_of, All}
pub use Lists.{
  length-append, length-take_le, count_if-append, count_if-le-length, find_if-test, All-append,
  All-find_if, All-map,
}
unfoldable pub use Texts.{Text, bytes, text_eq, digits_upto, to_text, is_space, to_lower}
pub use Texts.{text_eq_iff}
pub use Int.{ℤ, pos, negsuc, is_negative, exceeds, Within}
pub use Prim.Native.Nat.{ℕ, zero, suc, ◌+◌, ◌-◌, ◌*◌, ◌/◌, ◌%◌, ◌^◌, ◌≤◌, ◌<◌}
pub use mathlib.Core.Path.{◌≡◌, refl, sym, ap, ◌∙◌}
pub use mathlib.Core.Logic.{◌≢◌, ◌↔◌, ◌⊎◌, inl, inr}
pub use mathlib.Core.Bool.{Bool, true, false, not, ◌&&◌, ◌||◌}
pub use mathlib.Core.Option.{Option, none, some}
pub use mathlib.Core.List.{List, [], ◌∷◌, ◌++◌, map, append_assoc, append-nil}
pub use native.Mathlib.Omega.{arith}
unfoldable pub use Maps.{
  text_less, texts_eq, texts_less, tie_eq, tie_less, sort_by, unique_by, set_has, set_insert,
  set_erase, map_find, map_has, map_set, map_get, TieKey, TextMap,
}
pub use Maps.{set_has-insert, All-sort_by}
