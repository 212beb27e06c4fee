-- ===== src/Decimal/Plain.antt =====
-- A context that meets the laws: millionths, rounded towards zero.
use gptrader_mw_v.Prelude.{ℕ, zero, suc, ◌/◌, ◌≤◌, ◌≡◌, ℤ, pos, negsuc, sub_ℕ, ◌≤ℤ◌, arith}
use native.Mathlib.Nat.{div-zero, le-div_iff_mul-le, div-mul-le_self}
use gptrader_mw_v.Decimal.{Context}

abbrev pub truncate : ℤ → ℕ → ℤ
truncate (pos n) d = pos (n / d)
truncate (negsuc n) d = sub_ℕ 0 (suc n / d)

div_mono : (a b d : ℕ) → a ≤ b → a / d ≤ b / d
div_mono a b zero h = rw (div-zero a) (omega arith)
div_mono a b (suc d) h =
    (le-div_iff_mul-le (omega arith)).1 (omega (arith, div-mul-le_self a (suc d)))

pub truncate_zero : (d : ℕ) → truncate (pos 0) d ≡ pos 0
truncate_zero d = ground arith

pub truncate_mono : (a b : ℤ) (d : ℕ) → a ≤ℤ b → truncate a d ≤ℤ truncate b d
truncate_mono (pos a) (pos b) d h = omega (arith, div_mono a b d (omega arith))
truncate_mono (pos a) (negsuc b) d h = absurd (omega arith)
truncate_mono (negsuc a) (pos b) d h = ground arith
truncate_mono (negsuc a) (negsuc b) d h = ground (arith, div_mono (suc b) (suc a) d (omega arith))

pub truncate_sum_pos : (a : ℤ) → pos 1 ≤ℤ a → pos 1 ≤ℤ truncate a 1
truncate_sum_pos (pos a) h = omega arith
truncate_sum_pos (negsuc a) h = absurd (omega arith)

pub one_pos_lem : 1 ≤ 1000000
one_pos_lem = omega arith

instance abbrev pub plain : Context
plain = record {
  one = 1000000;
  round = truncate;
  one_pos = one_pos_lem;
  round_zero = truncate_zero;
  round_mono = truncate_mono;
  round_sum_pos = truncate_sum_pos;
}
