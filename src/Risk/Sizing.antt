-- ===== src/Risk/Sizing.antt =====
-- Position sizes stay within the limits, and sizing decisions within the leverage cap.
use gptrader_mw_v.Prelude.{true, ◌≡◌, ok, Returns, pos, ◌≤ℤ◌, min_ℤ, arith}
use gptrader_mw_v.Decimal.{Decimal, Context, times, divide}
use gptrader_mw_v.Decimal.Laws.{times_nonneg, divide_pos}
use gptrader_mw_v.Signal.{TradeDecision, is_entry}
use gptrader_mw_v.Risk.{
  ExposureLimit, PositionSizer, PositionSize, FixedPositionSizingStrategy, remaining_total_exposure,
  remaining_symbol_exposure, allows, cap_notional, size, decide_fixed, max_leverage,
}
use gptrader_mw_v.Risk.Limits.{cap_notional_bounds, cap_notional_nonneg}

module _ ⦃context : Context⦄ where
  -- A size that the limit allows, at a price.
  pub record Fits (l : ExposureLimit) (price : Decimal) (z : PositionSize) : Type 0 where
    pub total : z.notional ≤ℤ remaining_total_exposure l
    pub symbol : z.notional ≤ℤ remaining_symbol_exposure l
    pub allowed : allows l z.notional ≡ ok true
    pub quantity : divide z.notional price ≡ ok z.quantity
    pub not_negative : pos 0 ≤ℤ z.quantity

  -- For an entry decision, a positive price and amounts that are not negative, the sizer returns; the
  -- notional fits in both remaining exposures, so that the limit allows it, and the quantity is the
  -- notional over the price.
  pub size-Fits :
      (s : PositionSizer) (d : TradeDecision) (l : ExposureLimit) (price : Decimal)
      → is_entry d.action ≡ true
      → pos 0 ≤ℤ l.equity
      → pos 0 ≤ℤ s.base_risk_ratio
      → pos 0 ≤ℤ s.leverage
      → pos 0 ≤ℤ d.signal.confidence
      → pos 1 ≤ℤ price
      → Returns (Fits l price) (size s d l price)
  unfolding size allows
  size-Fits s d l price entry he hr hl hc hp =
      let n1 = times l.equity s.base_risk_ratio in
      let n2 = times n1 d.signal.confidence in
      let n = times n2 s.leverage in
      let h1 = times_nonneg l.equity s.base_risk_ratio he hr in
      let h2 = times_nonneg n1 d.signal.confidence h1 hc in
      let h3 = times_nonneg n2 s.leverage h2 hl in
      let h4 = cap_notional_nonneg l n h3 in
      let (q, divided, hq) = divide_pos (cap_notional l n) price h4 hp in
      ground (arith, cap_notional_bounds l n)

  -- The fixed strategy never raises on positive parameters, and its leverage is the configured one
  -- cut off at fifteen.
  pub decide_fixed_lem :
      (s : FixedPositionSizingStrategy) (d : TradeDecision) (l : ExposureLimit)
      → pos 1 ≤ℤ s.equity_ratio
      → pos 1 ≤ℤ s.leverage
      → Returns
          (λ r.
            (r.equity_ratio ≡ s.equity_ratio)
            × (r.leverage ≡ min_ℤ s.leverage max_leverage)
            × (r.leverage ≤ℤ max_leverage))
          (decide_fixed s d l)
  unfolding decide_fixed
  decide_fixed_lem s d l hr hl = ground (arith, context.one_pos)
