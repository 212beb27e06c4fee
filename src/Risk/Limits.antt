-- ===== src/Risk/Limits.antt =====
-- The exposure limit and the risk policy agree.
use gptrader_mw_v.Prelude.{true, false, ◌≡◌, ◌↔◌, ok, Returns, pos, ◌≤ℤ◌, ◌<ℤ◌, arith}
use gptrader_mw_v.Decimal.{Decimal, Context}
use gptrader_mw_v.Signal.{TradeDecision, is_entry}
use gptrader_mw_v.Risk.{
  ExposureLimit, RiskCheck, allowed, not_entry_decision, total_exposure_exceeded,
  symbol_exposure_exceeded, remaining_total_exposure, remaining_symbol_exposure, allows,
  check_entry, cap_notional,
}

module _ ⦃context : Context⦄ where
  pub remaining_total_nonneg : (l : ExposureLimit) → pos 0 ≤ℤ remaining_total_exposure l
  unfolding remaining_total_exposure
  remaining_total_nonneg l = ground arith

  pub remaining_symbol_nonneg : (l : ExposureLimit) → pos 0 ≤ℤ remaining_symbol_exposure l
  unfolding remaining_symbol_exposure
  remaining_symbol_nonneg l = ground arith

  -- What a verdict of the policy says of a decision, a limit and a notional.
  pub record Verdict (d : TradeDecision) (l : ExposureLimit) (n : Decimal) (c : RiskCheck)
      : Type 0 where
    pub permits : (c.is_allowed ≡ true) ↔ (
        (is_entry d.action ≡ true)
        × (n ≤ℤ remaining_total_exposure l)
        × (n ≤ℤ remaining_symbol_exposure l))
    pub explains : (c.is_allowed ≡ true) ↔ (c.reason ≡ allowed)
    pub not_entry : (c.reason ≡ not_entry_decision) ↔ (is_entry d.action ≡ false)
    pub over_total :
        (c.reason ≡ total_exposure_exceeded)
        ↔ ((is_entry d.action ≡ true) × (remaining_total_exposure l <ℤ n))
    pub over_symbol : (c.reason ≡ symbol_exposure_exceeded) ↔ (
        (is_entry d.action ≡ true)
        × (n ≤ℤ remaining_total_exposure l)
        × (remaining_symbol_exposure l <ℤ n))
    pub agrees : is_entry d.action ≡ true → allows l n ≡ ok c.is_allowed

  -- The policy answers on every notional that is not negative. It allows exactly the entry decisions
  -- whose notional is within both remaining exposures, its reason is `allowed` exactly then,
  -- `not_entry_decision` exactly on other decisions, and on an entry decision `total_exposure_exceeded`
  -- exactly above the total exposure and else `symbol_exposure_exceeded` above that of the symbol; and
  -- there its verdict is the answer of `ExposureLimit.allows`.
  pub check_entry-Verdict :
      (d : TradeDecision) (l : ExposureLimit) (n : Decimal)
      → pos 0 ≤ℤ n
      → Returns (Verdict d l n) (check_entry d l n)
  unfolding check_entry allows
  check_entry-Verdict d l n h = ground arith

  pub cap_notional_bounds :
      (l : ExposureLimit) (n : Decimal)
      → (cap_notional l n ≤ℤ n)
        × (cap_notional l n ≤ℤ remaining_total_exposure l)
        × (cap_notional l n ≤ℤ remaining_symbol_exposure l)
  unfolding cap_notional
  cap_notional_bounds l n = ground arith

  pub cap_notional_nonneg :
      (l : ExposureLimit) (n : Decimal) → pos 0 ≤ℤ n → pos 0 ≤ℤ cap_notional l n
  unfolding cap_notional
  cap_notional_nonneg l n h = ground (arith, remaining_total_nonneg l, remaining_symbol_nonneg l)

  pub cap_notional-eq :
      (l : ExposureLimit) (n : Decimal)
      → n ≤ℤ remaining_total_exposure l
      → n ≤ℤ remaining_symbol_exposure l
      → cap_notional l n ≡ n
  unfolding cap_notional
  cap_notional-eq l n ht hs = ground arith
