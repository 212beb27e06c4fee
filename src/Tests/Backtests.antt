-- ===== src/Tests/Backtests.antt =====
-- The theorems on backtests, applied.
use gptrader_mw_v.Prelude.{◌≡◌, refl, none, some, [], ◌∷◌, ok, OnOk, pos, ◌-ℤ◌, ◌*ℤ◌, arith}
use gptrader_mw_v.Decimal.{minus, divide}
use gptrader_mw_v.Decimal.Plain.{plain}
use gptrader_mw_v.Market.{MarketSnapshot, latest_candle, make_snapshot}
use gptrader_mw_v.Signal.{long}
use gptrader_mw_v.Strategy.{StrategyResult, TakeProfitStopLossLevels}
use gptrader_mw_v.Backtest.{
  BacktestPorts, BacktestStrategyCommand, OpenPosition, BacktestTrade, BacktestPerformance,
  exit_for_candle, rolling_snapshot,
}
use gptrader_mw_v.Backtest.Pricing.{performance_of}
use gptrader_mw_v.Backtest.Simulator.{simulate_backtest}
use gptrader_mw_v.Backtest.Runs.{Reported, simulate_backtest-Reported}
use gptrader_mw_v.Backtest.Exits.{
  Exit, exit_for_candle-Exit, Window, rolling_snapshot-Window, Performed, performance_of-Performed,
}
use gptrader_mw_v.Tests.Samples.{units, eth, hourly, candle_at, snapshot, indicators, signal_to}

abbrev result : StrategyResult
result = record { name = "trend"; signal = signal_to long; metadata = [] }

abbrev ports : BacktestPorts
ports = record {
  evaluate = λ c. ok result;
  make_indicators = λ m. ok (record indicators { measured_at = (latest_candle m).closed_at });
  calculate_levels = none;
  decide_size = none;
  read_decimal = λ v. none;
}

abbrev command : BacktestStrategyCommand
command = record {
  target_id = "t";
  symbol = eth;
  timeframe = hourly;
  candle_limit = pos 1;
  start_at = none;
  end_at = none;
  initial_equity = units 10000;
  risk_ratio = pos 10000;
  leverage = units 1;
  fee_rate = pos 0;
  slippage_rate = pos 0;
  metadata = [];
}

simulate_backtest-Reported_example :
    OnOk (Reported ports command snapshot 7200000000) (simulate_backtest ports command snapshot)
simulate_backtest-Reported_example =
    simulate_backtest-Reported ports command snapshot (omega arith, (omega arith, tt))

abbrev levels : TakeProfitStopLossLevels
levels = record {
  strategy_name = "fixed";
  entry_price = units 100;
  take_profit = units 105;
  stop_loss = units 95;
}

abbrev held : OpenPosition
held = record {
  direction = long;
  entry_price = units 100;
  quantity = units 1;
  entry_time = 0;
  levels = some levels;
}

exit_for_candle-Exit_example :
    (held.levels ≡ none → exit_for_candle held (candle_at 1 90 110 100) ≡ none)
    × ((l : TakeProfitStopLossLevels)
        → held.levels ≡ some l
        → Exit long l (candle_at 1 90 110 100) (exit_for_candle held (candle_at 1 90 110 100)))
exit_for_candle-Exit_example = exit_for_candle-Exit held (candle_at 1 90 110 100)

abbrev last_only : MarketSnapshot
last_only = record { first = candle_at 1 95 115 100; others = [] }

window_run : rolling_snapshot snapshot 1 (pos 1) ≡ ok last_only
unfolding rolling_snapshot make_snapshot ◌-ℤ◌
window_run = refl

rolling_snapshot-Window_example : Window snapshot last_only 1 (pos 1)
rolling_snapshot-Window_example =
    rolling_snapshot-Window snapshot last_only 1 (pos 1) (omega arith) window_run

-- Another market with the same first candle.
abbrev other_market : MarketSnapshot
other_market = record snapshot { others = candle_at 1 190 300 250 ∷ [] }

abbrev trade : BacktestTrade
trade = record {
  direction = long;
  entry_price = units 100;
  exit_price = units 105;
  quantity = units 2;
  gross_pnl = units 10;
  fee_paid = pos 0;
  net_pnl = units 10;
  entry_time = 0;
  exit_time = 7200000000;
  exit_reason = "take_profit";
}

abbrev performance : BacktestPerformance
performance = record {
  initial_equity = units 100;
  final_equity = units 110;
  net_pnl = units 10;
  return_ratio = pos 100000;
  max_drawdown_ratio = pos 0;
  trade_count = 1;
  winning_trade_count = 1;
  losing_trade_count = 0;
  win_rate = units 1;
}

performance_run : performance_of (units 100) (units 110) (trade ∷ []) (pos 0) ≡ ok performance
unfolding performance_of divide minus ◌*ℤ◌ ◌-ℤ◌
performance_run = refl

performance_of-Performed_example :
    Performed (units 100) (units 110) (trade ∷ []) (pos 0) performance
performance_of-Performed_example =
    performance_of-Performed (units 100) (units 110) (trade ∷ []) (pos 0) performance
      performance_run
