-- ===== src/Decimal/Laws.antt =====
-- Signs and monotonicity of rounded arithmetic.
use gptrader_mw_v.Prelude.{
  ℕ, ◌≤◌, zero, suc, ◌≡◌, ok, ℤ, pos, negsuc, ◌+ℤ◌, ◌-ℤ◌, ◌*ℤ◌, ◌≤ℤ◌, ◌<ℤ◌, arith, int_laws,
  *ℤ_nonneg, eq_of_parts, refl, ap, ◌∙◌, subst,
}
use gptrader_mw_v.Decimal.{Decimal, Context, literal, plus, minus, times, divide}

module _ ⦃context : Context⦄ where
  open context use {one, round, round_zero, round_mono, round_sum_pos}

  pub round_nonneg : (a : ℤ) (d : ℕ) → pos 0 ≤ℤ a → pos 0 ≤ℤ round a d
  round_nonneg a d h = subst (λ z. z ≤ℤ round a d) (round_zero d) (round_mono (pos 0) a d h)

  pub plus_nonneg : (a b : Decimal) → pos 0 ≤ℤ a → pos 0 ≤ℤ b → pos 0 ≤ℤ plus a b
  unfolding plus
  plus_nonneg a b ha hb = round_nonneg (a +ℤ b) 1 (omega int_laws)

  -- A difference is zero only if the two values are equal.
  pub minus_pos : (a b : Decimal) → b <ℤ a → pos 1 ≤ℤ minus a b
  unfolding minus
  minus_pos a b h = round_sum_pos (a -ℤ b) (omega int_laws)

  pub minus_self : (a : Decimal) → minus a a ≡ pos 0
  unfolding minus
  minus_self a = ap (λ z. round z 1) (eq_of_parts (a -ℤ a) (pos 0) (omega int_laws)) ∙ round_zero 1

  pub times_nonneg : (a b : Decimal) → pos 0 ≤ℤ a → pos 0 ≤ℤ b → pos 0 ≤ℤ times a b
  unfolding times
  times_nonneg a b ha hb = round_nonneg (a *ℤ b) one (*ℤ_nonneg a b ha hb)

  -- A value that is at least zero divided by a positive one gives a value that is at least zero.
  pub divide_pos :
      (a b : Decimal) → pos 0 ≤ℤ a → pos 1 ≤ℤ b → (q : Decimal) × (divide a b ≡ ok q) × (pos 0 ≤ℤ q)
  unfolding divide
  divide_pos a (pos zero) ha hb = absurd (omega arith)
  divide_pos a (pos (suc n)) ha hb = (
    round (a *ℤ pos one) (suc n),
    refl,
    round_nonneg _ _ (*ℤ_nonneg a (pos one) ha (omega arith)),
  )
  divide_pos a (negsuc n) ha hb = absurd (omega arith)

  -- Division by a positive value gives a value.
  pub divide_returns : (a b : Decimal) → pos 1 ≤ℤ b → (q : Decimal) × (divide a b ≡ ok q)
  unfolding divide
  divide_returns a (pos zero) hb = absurd (omega arith)
  divide_returns a (pos (suc n)) hb = (round (a *ℤ pos one) (suc n), refl)
  divide_returns a (negsuc n) hb = absurd (omega arith)

  -- A positive number is a positive value.
  pub literal_pos : (n : ℕ) → 1 ≤ n → pos 1 ≤ℤ literal n 1
  literal_pos zero h = absurd (omega arith)
  literal_pos (suc k) h = omega (arith, context.one_pos)
