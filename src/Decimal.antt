-- ===== src/Decimal.antt =====
-- Python's `decimal.Decimal`, as far as the program uses it. A finite value is a whole number of
-- units, where a unit is the smallest positive value of the context; so comparisons, `min` and
-- `max`, which Python computes exactly, are those of the integers. An arithmetic result is the exact
-- one rounded by the context (28 digits, half to even; the program does not change it): `round n d`
-- is the rounding of n/d units. NaN and the infinities have no counterpart, and an operation that
-- Python answers with `DivisionByZero` or `InvalidOperation` returns an error.
pub mod Laws
pub mod Plain
use gptrader_mw_v.Prelude.{
  ℕ, zero, suc, ◌*◌, ◌/◌, ◌≤◌, ◌≡◌, Result, ok, err, decimal_error, ℤ, pos, negsuc, ◌+ℤ◌, ◌-ℤ◌,
  ◌*ℤ◌, ◌≤ℤ◌,
}

abbrev pub Decimal : Type 0
Decimal = ℤ

-- Rounding is monotone, keeps zero, and a sum that is not zero never rounds to zero, because
-- every unit is representable.
pub record Context : Type 0 where
  pub one : ℕ
  pub round : ℤ → ℕ → Decimal
  pub one_pos : 1 ≤ one
  pub round_zero : (d : ℕ) → round (pos 0) d ≡ pos 0
  pub round_mono : (a b : ℤ) (d : ℕ) → a ≤ℤ b → round a d ≤ℤ round b d
  pub round_sum_pos : (a : ℤ) → pos 1 ≤ℤ a → pos 1 ≤ℤ round a 1

module _ ⦃context : Context⦄ where
  open context use {one, round}

  -- `Decimal("n/d")` for a literal of the source, such as 3/1000 for "0.003".
  abbrev pub literal : ℕ → ℕ → Decimal
  literal n d = pos (n * one / d)

  unfoldable pub plus : Decimal → Decimal → Decimal
  plus a b = round (a +ℤ b) 1

  unfoldable pub minus : Decimal → Decimal → Decimal
  minus a b = round (a -ℤ b) 1

  unfoldable pub times : Decimal → Decimal → Decimal
  times a b = round (a *ℤ b) one

  unfoldable pub divide : Decimal → Decimal → Result Decimal
  divide a (pos zero) = err decimal_error
  divide a (pos (suc n)) = ok (round (a *ℤ pos one) (suc n))
  divide a (negsuc n) = ok (round ((pos 0 -ℤ a) *ℤ pos one) (suc n))
