-- ===== src/Research/Indicators.antt =====
-- The default indicator factory of a backtest cycle: `build_strategy_backtest_cycle_indicators`
-- (application/usecases/strategy_lifecycle/run_strategy_backtest_cycle_usecase.py). An indicator has
-- the key that `IndicatorValue.key` makes of its name and its period, where a text of digits is normal.
pub mod Averages
pub mod Totality
use gptrader_mw_v.Prelude.{
  ℕ, ◌-◌, String, after_prefix, str_ℕ, read_ℕ, Option, none, some, List, [], ◌∷◌, Result, ok, ◌>>=◌,
  pos, ltb, ◌==◌, if◌then◌else◌,
}
use Prim.Native.String
use gptrader_mw_v.Decimal.{Decimal, Context, literal, divide}
use gptrader_mw_v.Market.{count, Candle, MarketSnapshot, candles, latest_candle}
use gptrader_mw_v.Strategy.{IndicatorValue, IndicatorSet}
use gptrader_mw_v.Strategy.MovingAverage.{make_indicator_set}
use gptrader_mw_v.Backtest.{drop_candles}
use gptrader_mw_v.Research.Measures.{add_all}
use gptrader_mw_v.Research.Cycle.{StrategySpec}

abbrev pub period_prefix : String
period_prefix = "moving_average.period_"

unfoldable pub close_prices : List Candle → List Decimal
close_prices [] = []
close_prices (c ∷ cs) = c.close_price ∷ close_prices cs

-- `snapshot.candles[-period:]` for a positive period
unfoldable pub latest_candles : ℕ → MarketSnapshot → List Candle
unfolding drop_candles
latest_candles period snapshot = drop_candles (count (candles snapshot) - period) (candles snapshot)

module _ ⦃context : Context⦄ where
  -- `sum(closes, Decimal("0")) / Decimal(period)`
  unfoldable pub average_close : MarketSnapshot → ℕ → Result Decimal
  unfolding close_prices latest_candles add_all
  average_close snapshot period =
      divide (add_all (pos 0) (close_prices (latest_candles period snapshot))) (literal period 1)

  unfoldable pub moving_average : MarketSnapshot → ℕ → Result IndicatorValue
  unfolding average_close
  moving_average snapshot period = do
    value ← average_close snapshot period
    ok (record {
      key = String.◌++◌ period_prefix (str_ℕ period);
      value = value;
      measured_at = (latest_candle snapshot).closed_at;
    })

module _ (unicode_digit : ℕ → Option ℕ) where
  abbrev positive_period : Option ℕ → Option ℕ
  positive_period none = none
  positive_period (some period) = if period == 0 then none else some period

  abbrev period_text : Option String → Option ℕ
  period_text none = none
  period_text (some text) = positive_period (read_ℕ unicode_digit text)

  -- `_moving_average_period_from_key`
  unfoldable pub moving_average_period : String → Option ℕ
  moving_average_period key = period_text (after_prefix period_prefix key)

  abbrev if_filled : MarketSnapshot → Option ℕ → Option ℕ
  if_filled snapshot none = none
  if_filled snapshot (some period) =
      if ltb (count (candles snapshot)) period then none else some period

  -- The period of a key for which the loop computes an indicator.
  abbrev pub computed_period : MarketSnapshot → String → Option ℕ
  computed_period snapshot key = if_filled snapshot (moving_average_period key)

  module _ ⦃context : Context⦄ where
    -- The loop over the keys.
    unfoldable pub moving_averages : MarketSnapshot → List String → Result (List IndicatorValue)
    unfolding moving_average
    moving_averages snapshot [] = ok []
    moving_averages snapshot (key ∷ keys) =
        let rest = moving_averages snapshot keys in
        elim (computed_period snapshot key) [
          | none ↦ rest
          | some period ↦
              moving_average snapshot period >>= λ value. rest >>= λ values. ok (value ∷ values)
        ]

    unfoldable pub build_indicators : StrategySpec → MarketSnapshot → Result IndicatorSet
    unfolding moving_averages
    build_indicators spec snapshot = do
      values ← moving_averages snapshot spec.indicator_keys
      make_indicator_set (record {
        symbol = snapshot.first.symbol;
        timeframe = snapshot.first.timeframe;
        measured_at = (latest_candle snapshot).closed_at;
        values = values;
      })
