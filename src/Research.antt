-- ===== src/Research.antt =====
-- The use cases of application/usecases/research: backtest, dry run and evaluation of a strategy. The
-- field `indicators` of a backtest command, which only the use case reads, is an argument of its own.
pub mod Cycle
pub mod Measures
pub mod Indicators
pub mod Runs
pub mod Outcomes
pub mod Items
use gptrader_mw_v.Prelude.{
  Bool, String, Option, none, some, List, [], ◌∷◌, Result, ok, err, value_error, ◌>>=◌, ◌>>◌,
  refuse_if, is_empty, strip, ℤ, pos, leb_ℤ, ◌==◌, if◌then◌else◌,
}
use gptrader_mw_v.Decimal.{Context}
use gptrader_mw_v.Market.{
  Datetime, Symbol, Timeframe, Candle, MarketSnapshot, make_snapshot, latest_candle,
}
use gptrader_mw_v.Signal.{Metadata}
use gptrader_mw_v.Strategy.{
  IndicatorSet, StrategyContext, StrategyResult, GeneratedSignal, make_context,
}
use gptrader_mw_v.Backtest.{
  BacktestPorts, BacktestStrategyCommand, BacktestTrade, BacktestPerformance,
}
use gptrader_mw_v.Backtest.Simulator.{simulate_backtest}
use gptrader_mw_v.Lifecycle.{
  StrategyLifecycleStatus, backtested, dry_run, Metrics, StrategyEvaluation, make_evaluation,
}

-- `MarketDataPort`
pub record MarketData : Type 0 where
  pub load_snapshot : Symbol → Timeframe → ℤ → Result MarketSnapshot
  pub load_candles_between : Symbol → Timeframe → Datetime → Datetime → Result (List Candle)

pub record BacktestStrategyResult : Type 0 where
  pub target_id : String
  pub strategy_result : StrategyResult
  pub run_context : StrategyContext
  pub trades : List BacktestTrade
  pub performance : BacktestPerformance

-- `_command_indicator_factory`
unfoldable pub command_indicators : IndicatorSet → MarketSnapshot → Result IndicatorSet
command_indicators indicators snapshot =
    if indicators.measured_at == (latest_candle snapshot).closed_at
    then ok indicators
    else ok (record {
      symbol = snapshot.first.symbol;
      timeframe = snapshot.first.timeframe;
      measured_at = (latest_candle snapshot).closed_at;
      values = [];
    })

-- The market of `BacktestStrategyUseCase.execute`: a command has both ends of a range or none.
abbrev pub load_market :
    MarketData → Symbol → Timeframe → ℤ → Option Datetime → Option Datetime → Result MarketSnapshot
load_market port symbol timeframe limit (some start) (some end) = do
  candles ← port.load_candles_between symbol timeframe start end
  make_snapshot candles
load_market port symbol timeframe limit _ _ = port.load_snapshot symbol timeframe limit

module _ ⦃context : Context⦄ where
  -- `BacktestStrategyUseCase.execute`, where the indicator factory is part of the ports.
  unfoldable pub execute_backtest :
      MarketData → BacktestPorts → BacktestStrategyCommand → Result BacktestStrategyResult
  execute_backtest market_data ports command = do
    market ←
        load_market market_data command.symbol command.timeframe command.candle_limit
          command.start_at command.end_at
    simulation ← simulate_backtest ports command market
    ok (record {
      target_id = command.target_id;
      strategy_result = simulation.strategy_result;
      run_context = simulation.run_context;
      trades = simulation.trades;
      performance = simulation.performance;
    })

pub record DryRunStrategyCommand : Type 0 where
  pub target_id : String
  pub symbol : Symbol
  pub timeframe : Timeframe
  pub candle_limit : ℤ
  pub indicators : IndicatorSet
  pub metadata : Metadata

-- `DryRunStrategyCommand.__post_init__`
unfoldable pub check_dry_run_command : DryRunStrategyCommand → Result DryRunStrategyCommand
check_dry_run_command c = do
  refuse_if (is_empty (strip c.target_id)) "target_id is required"
  refuse_if (leb_ℤ c.candle_limit (pos 0)) "candle_limit must be positive"
  ok (record c { target_id = strip c.target_id })

pub record DryRunStrategyResult : Type 0 where
  pub target_id : String
  pub generated_signal : GeneratedSignal
  pub run_context : StrategyContext

-- `DryRunStrategyUseCase.execute`, with the signal generator as an argument.
unfoldable pub execute_dry_run :
    MarketData
    → (StrategyContext → Result GeneratedSignal)
    → DryRunStrategyCommand
    → Result DryRunStrategyResult
execute_dry_run market_data generate command = do
  market ← market_data.load_snapshot command.symbol command.timeframe command.candle_limit
  c ← make_context market command.indicators none command.metadata
  generated ← generate c
  ok (record { target_id = command.target_id; generated_signal = generated; run_context = c })

pub data ResearchRunMode : Type 0 where
  backtest dry_run_mode : ResearchRunMode

pub record EvaluateStrategyCommand : Type 0 where
  pub evaluation_id : String
  pub target_id : String
  pub mode : ResearchRunMode
  pub metrics : Metrics
  pub metadata : Metadata

-- `EvaluateStrategyCommand.__post_init__`
unfoldable pub check_evaluate_command : EvaluateStrategyCommand → Result EvaluateStrategyCommand
check_evaluate_command c = do
  refuse_if (is_empty (strip c.evaluation_id)) "evaluation_id is required"
  refuse_if (is_empty (strip c.target_id)) "target_id is required"
  ok (record c { evaluation_id = strip c.evaluation_id; target_id = strip c.target_id })

-- `_status_for_mode`, which knows both modes.
abbrev pub status_for_mode : ResearchRunMode → StrategyLifecycleStatus
status_for_mode backtest = backtested
status_for_mode dry_run_mode = dry_run

-- `EvaluateStrategyUseCase.execute`
unfoldable pub execute_evaluate : EvaluateStrategyCommand → Result StrategyEvaluation
execute_evaluate c = make_evaluation (record {
  evaluation_id = c.evaluation_id;
  target_id = c.target_id;
  status = status_for_mode c.mode;
  metrics = c.metrics;
  metadata = c.metadata;
})
