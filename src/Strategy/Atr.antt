-- ===== src/Strategy/Atr.antt =====
-- AtrTakeProfitStopLossStrategy (domain/strategy/implementations/atr_take_profit_stop_loss.py).
pub mod Bounds
use gptrader_mw_v.Prelude.{
  ℕ, zero, suc, ◌≤◌, ◌≡◌, Bool, true, String, List, [], ◌∷◌, Result, ok, err, value_error, ◌>>=◌,
  ◌>>◌, refuse_if, ℤ, pos, negsuc, pos_part, leb_ℤ, ltb, max_ℤ, ◌≤ℤ◌, if◌then◌else◌, arith,
  int_laws, inl, inr, Result-cases, refl, ap,
}
use gptrader_mw_v.Decimal.{Decimal, Context, literal, plus, minus, times, divide}
use gptrader_mw_v.Decimal.Laws.{plus_nonneg, times_nonneg, divide_pos}
use gptrader_mw_v.Market.{count, Candle, candles, latest_candle}
use gptrader_mw_v.Signal.{SignalDirection, long, short, wait, is_wait}
use gptrader_mw_v.Strategy.{StrategyContext, TakeProfitStopLossLevels, check_levels, levels_at}
use gptrader_mw_v.Strategy.Rolling.{reverse_onto}

pub record AtrTakeProfitStopLossStrategy : Type 0 where
  pub name : String
  pub atr_period : ℤ
  pub atr_multiplier : Decimal
  pub reward_risk_ratio : Decimal

-- `__post_init__`
unfoldable pub check_atr : AtrTakeProfitStopLossStrategy → Result AtrTakeProfitStopLossStrategy
check_atr s = do
  refuse_if (leb_ℤ s.atr_period (pos 0)) "atr_period must be positive"
  refuse_if (leb_ℤ s.atr_multiplier (pos 0)) "atr_multiplier must be positive"
  refuse_if (leb_ℤ s.reward_risk_ratio (pos 0)) "reward_risk_ratio must be positive"
  ok s

-- `abs` of a value that is rounded.
abbrev pub abs : Decimal → Decimal
abs (pos n) = pos n
abs (negsuc n) = pos (suc n)

module _ ⦃context : Context⦄ where
  -- `_true_range`
  unfoldable pub true_range : Candle → Decimal → Decimal
  true_range c previous_close =
      max_ℤ (max_ℤ (minus c.high_price c.low_price) (abs (minus c.high_price previous_close)))
        (abs (minus c.low_price previous_close))

  -- The sum of the true ranges of the last candles, added from the earliest of them on; the list
  -- begins with the latest candle.
  unfoldable pub add_true_ranges : ℕ → List Candle → Decimal
  unfolding true_range
  add_true_ranges (suc n) (c ∷ d ∷ cs) =
      plus (add_true_ranges n (d ∷ cs)) (true_range c d.close_price)
  add_true_ranges _ _ = pos 0

  -- `_average_true_range`, where the period was checked.
  unfoldable pub average_true_range : ℕ → List Candle → Result Decimal
  unfolding add_true_ranges
  average_true_range period newest =
      if ltb (count newest) (suc period)
      then err (value_error "not enough candles for atr_period")
      else divide (add_true_ranges period newest) (literal period 1)

  -- `calculate`
  unfoldable pub calculate_atr :
      AtrTakeProfitStopLossStrategy
      → StrategyContext
      → SignalDirection
      → Result TakeProfitStopLossLevels
  unfolding average_true_range reverse_onto check_levels
  calculate_atr s c direction = do
    refuse_if (is_wait direction) "direction must be LONG or SHORT"
    atr ← average_true_range (pos_part s.atr_period) (reverse_onto (candles c.market) [])
    let entry_price = (latest_candle c.market).close_price
    let risk = times atr s.atr_multiplier
    let (stop_loss, take_profit) =
        levels_at direction entry_price risk (times risk s.reward_risk_ratio)
    check_levels (record {
      strategy_name = s.name;
      entry_price = entry_price;
      take_profit = take_profit;
      stop_loss = stop_loss;
    })
