-- ===== src/Tests/Schedules.antt =====
-- The theorems on scheduled trades and on backtest cycles, applied.
use gptrader_mw_v.Prelude.{
  ◌≡◌, ◌+◌, none, some, refl, arith, strip, is_in, str_ℕ, after_prefix, read_ℕ, all_distinct, [],
  ◌∷◌, ok, err, Returns, port_error, pos,
}
use gptrader_mw_v.Decimal.Plain.{plain}
use gptrader_mw_v.Strategy.{IndicatorValue}
use gptrader_mw_v.Strategy.MovingAverage.{get_indicator}
use gptrader_mw_v.Research.Indicators.{build_indicators, moving_average_period}
use gptrader_mw_v.Research.Indicators.Averages.{average_key, IsAverage}
use gptrader_mw_v.Research.Indicators.Totality.{build_indicators-IsAverage, are_plain}
use gptrader_mw_v.Signal.{long}
use gptrader_mw_v.Scheduler.{run_trade_execution}
use gptrader_mw_v.Scheduler.Trades.{Outcome, run_trade_execution-Outcome}
use gptrader_mw_v.Research.Cycle.{
  StrategySpec, RunStrategyBacktestCycleCommand, list_specs, selected_specs, succeeded_count,
  failed_count,
}
use gptrader_mw_v.Research.Runs.{CyclePorts, run_one, execute_cycle}
use gptrader_mw_v.Research.Outcomes.{Cycle, evaluations, specs_count}
use gptrader_mw_v.Research.Items.{are_named, execute_cycle-Cycle}
use gptrader_mw_v.Tests.Samples.{eth, hourly, snapshot, signal_to, ports, execute_command}

run_trade_execution-Outcome_example :
    Outcome ports "trade" 1 2 []
      (ok execute_command)
      (run_trade_execution ports "trade" 1 2 (ok execute_command) [])
run_trade_execution-Outcome_example =
    run_trade_execution-Outcome ports "trade" 1 2 (ok execute_command) []

abbrev spec : StrategySpec
spec = record {
  strategy_id = "trend";
  name = "Trend";
  implementation = "trend";
  version = "1";
  symbol = eth;
  timeframe = hourly;
  lookback_candle_limit = pos 2;
  parameters = [];
  metadata = [];
  indicator_keys = "moving_average.period_2" ∷ "volume" ∷ [];
}

abbrev broken : StrategySpec
broken = record spec { strategy_id = "broken" }

abbrev cycle_ports : CyclePorts
cycle_ports = record {
  market_data = record {
    load_snapshot = λ s t n. ok snapshot;
    load_candles_between = λ s t a b. ok [];
  };
  catalog =
      (spec, λ p. ok (λ c. ok (record { name = "trend"; signal = signal_to long; metadata = [] })))
      ∷ (broken, λ p. err (port_error 1))
      ∷ [];
  make_indicators = build_indicators (λ c. none);
  calculate_levels = none;
  decide_size = none;
  read_decimal = λ v. none;
  answer_save = λ s. ok tt;
  name_of = λ e. "PortError";
  text_of = λ e. "broken";
}

abbrev cycle_command : RunStrategyBacktestCycleCommand
cycle_command = record {
  cycle_id = "c1";
  metadata = [];
  enabled_strategy_ids = [];
  disabled_strategy_ids = [];
  start_at = none;
  end_at = none;
}

execute_cycle-Cycle_example :
    let run = execute_cycle cycle_ports cycle_command in
    let specs = selected_specs (list_specs cycle_ports.catalog) cycle_command in
    Returns
      (λ items.
        Cycle (run_one cycle_ports cycle_command) specs items run.1
        × (succeeded_count items ≡ evaluations run.1)
        × (succeeded_count items + failed_count items ≡ specs_count specs))
      run.0
unfolding are_named selected_specs list_specs strip
execute_cycle-Cycle_example = execute_cycle-Cycle cycle_ports cycle_command (λ save. refl) refl

build_indicators-IsAverage_example :
    Returns
      (λ set.
        (v : IndicatorValue) × (get_indicator strip set (average_key 2) ≡ some v)
        × IsAverage snapshot 2 v)
      (build_indicators (λ c. none) spec snapshot)
unfolding strip are_plain all_distinct is_in str_ℕ moving_average_period after_prefix read_ℕ
build_indicators-IsAverage_example =
    build_indicators-IsAverage (λ c. none) snapshot strip spec 2 refl refl refl refl (omega arith)
      (omega arith)
