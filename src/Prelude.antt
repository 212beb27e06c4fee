-- ===== src/Prelude.antt =====
-- The names that the other modules share: the libraries', passed on, and those of its children.
mod Tests
mod Errors
mod Int
mod Text
mod Digits
pub use Tests.*
pub use Errors.*
unfoldable pub use Text.{is_space, is_blank, is_empty, strip, is_canonical, is_in, all_distinct}
unfoldable pub use Digits.{
  after_prefix, digit_char, write_digits, str_ℕ, digit_of, read_digits, read_ℕ,
}
pub use Digits.{after_prefix-++, read_ℕ-str_ℕ}
pub use Text.{strip_right-is_blank, strip-strip, strip-is_blank, is_blank-++}
pub use Int.{
  ℤ, pos, negsuc, pos_part, neg_part, sub_ℕ, ◌≤ℤ◌, ◌<ℤ◌, ltb_ℤ, leb_ℤ, eqb_ℤ, max_ℤ, min_ℤ,
}
pub use Int.{+ℤ_parts, -ℤ_parts, eq_of_parts, int_laws, *ℤ_nonneg}
unfoldable pub use Int.{◌+ℤ◌, ◌-ℤ◌, ◌*ℤ◌}
pub use Prim.Native.Nat.{ℕ, zero, suc, ◌+◌, ◌-◌, ◌*◌, ◌/◌, ◌%◌, ◌≤◌, ◌<◌}
pub use Prim.Native.String.{String}
pub use mathlib.Core.Path.{◌≡◌, refl, sym, ap, ◌∙◌, subst}
pub use mathlib.Core.Logic.{◌≢◌, ◌↔◌, ◌⊎◌, inl, inr}
pub use mathlib.Core.Bool.{Bool, true, false, ◌&&◌, ◌||◌, not}
pub use mathlib.Core.Option.{Option, none, some}
pub use mathlib.Core.List.{List, [], ◌∷◌, ◌++◌, map}
pub use native.Mathlib.Omega.{arith}
pub use text.Mathlib.Text.{◌==◌ as str_eq}
pub use text.Mathlib.TextEquality.{eq_iff}
pub use text.Mathlib.TextPositions.{eq_refl}
