-- ===== src/Strategy/Atr/Bounds.antt =====
-- The levels that the average true range gives lie on the two sides of the entry price.
use gptrader_mw_v.Prelude.{
  ℕ, zero, suc, ◌≤◌, ◌≡◌, List, [], ◌∷◌, ok, pos, negsuc, pos_part, ◌≤ℤ◌, arith, inl, inr,
  Result-cases,
}
use gptrader_mw_v.Decimal.{Decimal, Context, literal, minus, times}
use gptrader_mw_v.Decimal.Laws.{plus_nonneg, times_nonneg, divide_pos, literal_pos}
use gptrader_mw_v.Market.{Candle, candles, latest_candle}
use gptrader_mw_v.Signal.{SignalDirection, wait}
use gptrader_mw_v.Strategy.{StrategyContext, TakeProfitStopLossLevels}
use gptrader_mw_v.Strategy.Rolling.{reverse_onto}
use gptrader_mw_v.Strategy.Levels.{Ordered, plus-above, minus-below}
use gptrader_mw_v.Strategy.Atr.{
  AtrTakeProfitStopLossStrategy, check_atr, abs, true_range, add_true_ranges, average_true_range,
  calculate_atr,
}

module _ ⦃context : Context⦄ where
  open context use {one}

  abs_nonneg : (x : Decimal) → pos 0 ≤ℤ abs x
  abs_nonneg (pos n) = omega arith
  abs_nonneg (negsuc n) = omega arith

  true_range_nonneg : (c : Candle) (close : Decimal) → pos 0 ≤ℤ true_range c close
  unfolding true_range
  true_range_nonneg c close =
      ground (arith, abs_nonneg (minus c.high_price close), abs_nonneg (minus c.low_price close))

  add_true_ranges_nonneg : (n : ℕ) (cs : List Candle) → pos 0 ≤ℤ add_true_ranges n cs
  unfolding add_true_ranges
  add_true_ranges_nonneg zero cs = omega arith
  add_true_ranges_nonneg (suc n) [] = omega arith
  add_true_ranges_nonneg (suc n) (c ∷ []) = omega arith
  add_true_ranges_nonneg (suc n) (c ∷ d ∷ cs) =
      plus_nonneg _ _ (add_true_ranges_nonneg n (d ∷ cs)) (true_range_nonneg c d.close_price)

  average_true_range_nonneg :
      (n : ℕ) (cs : List Candle) (atr : Decimal)
      → 1 ≤ n
      → average_true_range n cs ≡ ok atr
      → pos 0 ≤ℤ atr
  unfolding average_true_range
  average_true_range_nonneg n cs atr h returned =
      let (q, divided, q_nonneg) =
        divide_pos (add_true_ranges n cs) (literal n 1) (add_true_ranges_nonneg n cs)
          (literal_pos n h) in
      ground (arith, divided, q_nonneg, returned)

  -- The levels of an accepted strategy on the average true range are positive, stand at the latest
  -- close, and lie on the two sides of the rounded entry price by direction. It returns none for a
  -- waiting direction.
  pub calculate_atr-Ordered :
      (s : AtrTakeProfitStopLossStrategy) (c : StrategyContext) (d : SignalDirection)
      (l : TakeProfitStopLossLevels)
      → check_atr s ≡ ok s
      → calculate_atr s c d ≡ ok l
      → (l.entry_price ≡ (latest_candle c.market).close_price)
        × (pos 1 ≤ℤ l.stop_loss)
        × (pos 1 ≤ℤ l.take_profit)
        × Ordered d l
  unfolding check_atr calculate_atr
  calculate_atr-Ordered s c wait l checked returned = ground arith
  calculate_atr-Ordered s c d l checked returned =
      let newest = reverse_onto (candles c.market) [] in
      let entry = (latest_candle c.market).close_price in
      elim (Result-cases (average_true_range (pos_part s.atr_period) newest)) [
        | inl (atr, found) ↦
            let risk = times atr s.atr_multiplier in
            let reward = times risk s.reward_risk_ratio in
            let period_pos : 1 ≤ pos_part s.atr_period = ground arith in
            ground (
              arith,
              found,
              average_true_range_nonneg _ newest atr period_pos found,
              times_nonneg atr s.atr_multiplier,
              times_nonneg risk s.reward_risk_ratio,
              plus-above entry risk,
              plus-above entry reward,
              minus-below entry risk,
              minus-below entry reward,
            )
        | inr (e, found) ↦ ground (arith, found)
      ]
