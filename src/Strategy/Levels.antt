-- ===== src/Strategy/Levels.antt =====
-- The levels of a trade lie on the two sides of its entry price.
use gptrader_mw_v.Prelude.{◌≡◌, ok, pos, ◌+ℤ◌, ◌-ℤ◌, int_laws, ◌≤ℤ◌, arith}
use gptrader_mw_v.Decimal.{Decimal, Context, plus, minus, times}
use gptrader_mw_v.Decimal.Laws.{times_nonneg}
use gptrader_mw_v.Market.{latest_candle}
use gptrader_mw_v.Signal.{SignalDirection, long, short, wait}
use gptrader_mw_v.Strategy.{
  StrategyContext, TakeProfitStopLossLevels, FixedRatioTakeProfitStopLossStrategy,
  calculate_fixed_ratio,
}

module _ ⦃context : Context⦄ where
  -- The price after rounding: what adding or subtracting nothing gives.
  abbrev pub rounded : Decimal → Decimal
  rounded x = plus x (pos 0)

  -- The levels of a long trade have the stop loss below the entry and the take profit above it, those
  -- of a short trade the other way round.
  abbrev pub Ordered : SignalDirection → TakeProfitStopLossLevels → Type 0
  Ordered long l = (l.stop_loss ≤ℤ rounded l.entry_price) × (rounded l.entry_price ≤ℤ l.take_profit)
  Ordered short l =
      (l.take_profit ≤ℤ rounded l.entry_price) × (rounded l.entry_price ≤ℤ l.stop_loss)
  Ordered wait l = ⊥

  pub plus-above : (x r : Decimal) → pos 0 ≤ℤ r → rounded x ≤ℤ plus x r
  unfolding plus
  plus-above x r h = context.round_mono (x +ℤ pos 0) (x +ℤ r) 1 (omega int_laws)

  pub minus-below : (x r : Decimal) → pos 0 ≤ℤ r → minus x r ≤ℤ rounded x
  unfolding plus minus
  minus-below x r h = context.round_mono (x -ℤ r) (x +ℤ pos 0) 1 (omega int_laws)

  -- With ratios that are not negative, the levels of the fixed-ratio strategy are positive, stand at
  -- the latest close, and lie on the two sides of the rounded entry price by direction. It returns
  -- none for a waiting direction.
  pub calculate_fixed_ratio-Ordered :
      (s : FixedRatioTakeProfitStopLossStrategy) (c : StrategyContext) (d : SignalDirection)
      (l : TakeProfitStopLossLevels)
      → pos 0 ≤ℤ s.stop_loss_ratio
      → pos 0 ≤ℤ s.reward_risk_ratio
      → calculate_fixed_ratio s c d ≡ ok l
      → (l.entry_price ≡ (latest_candle c.market).close_price)
        × (pos 1 ≤ℤ l.stop_loss)
        × (pos 1 ≤ℤ l.take_profit)
        × Ordered d l
  unfolding calculate_fixed_ratio
  calculate_fixed_ratio-Ordered s c wait l hs hr h = ground arith
  calculate_fixed_ratio-Ordered s c d l hs hr h =
      let entry = (latest_candle c.market).close_price in
      let risk = times entry s.stop_loss_ratio in
      let reward = times risk s.reward_risk_ratio in
      ground (
        arith,
        times_nonneg entry s.stop_loss_ratio,
        times_nonneg risk s.reward_risk_ratio,
        plus-above entry risk,
        plus-above entry reward,
        minus-below entry risk,
        minus-below entry reward,
      )
