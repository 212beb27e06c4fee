-- ===== src/Backtest/Prefixes.antt =====
-- A backtest does not look ahead: what the loop of `simulate_backtest` does up to a candle depends on
-- the candles up to it alone.
use gptrader_mw_v.Prelude.{ℕ, ◌≡◌}
use gptrader_mw_v.Decimal.{Context}
use gptrader_mw_v.Market.{MarketSnapshot, candles}
use gptrader_mw_v.Backtest.{BacktestPorts, BacktestStrategyCommand, take_candles}

module _ ⦃context : Context⦄ (ports : BacktestPorts) (command : BacktestStrategyCommand)
    (m n : MarketSnapshot) where
  -- Two markets have the same candles, as far as a number of them goes.
  abbrev pub Agree : ℕ → Type 0
  Agree k = take_candles k (candles m) ≡ take_candles k (candles n)
