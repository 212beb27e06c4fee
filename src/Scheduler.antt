-- ===== src/Scheduler.antt =====
-- TradeScheduler (interfaces/scheduler/trade_scheduler.py) and StrategyLifecycleScheduler
-- (interfaces/scheduler/strategy_lifecycle_scheduler.py). A factory is its answer, and the clock is
-- read twice.
pub mod Trades
use gptrader_mw_v.Prelude.{
  Bool, String, Option, none, some, List, [], ◌∷◌, ◌++◌, Result, ok, err, Error, runtime_error,
  is_none,
}
use gptrader_mw_v.Market.{Datetime}
use gptrader_mw_v.Decimal.{Context}
use gptrader_mw_v.Trade.Journal.{Journal, Action, lift}
use gptrader_mw_v.Trade.Dto.{
  Ports, ExecuteTradeCommand, ExecuteTradeResult, ClosePositionCommand, ClosePositionResult,
  SyncPositionCommand, SyncPositionResult, ManageOpenPositionCommand, ManageOpenPositionResult,
}
use gptrader_mw_v.Trade.Execute.{execute}
use gptrader_mw_v.Trade.Close.{close}
use gptrader_mw_v.Trade.Sync.{sync}
use gptrader_mw_v.Trade.Manage.{manage}
use gptrader_mw_v.Lifecycle.{StrategyRepository, Saves}
use gptrader_mw_v.Lifecycle.Cycle.{
  RunStrategyLifecycleCommand, RunStrategyLifecycleResult, execute_run,
}
use gptrader_mw_v.Research.Cycle.{RunStrategyBacktestCycleCommand, StrategyBacktestCycleItem}
use gptrader_mw_v.Research.Runs.{CyclePorts, Save, execute_cycle}

-- `ScheduledTradeExecution` and the five classes like it.
pub record Scheduled (C R : Type 0) : Type 0 where
  pub schedule_name : String
  pub started_at : Datetime
  pub finished_at : Datetime
  pub command : Option C
  pub result : Option R
  pub error : Option Error

module _ {C R : Type 0} where
  -- `succeeded`
  abbrev pub succeeded : Scheduled C R → Bool
  succeeded s = is_none s.error

  -- The record after the `try` statement.
  abbrev pub scheduled : String → Datetime → Datetime → Option C → Result R → Scheduled C R
  scheduled name started finished command (ok r) = record {
    schedule_name = name;
    started_at = started;
    finished_at = finished;
    command = command;
    result = some r;
    error = none;
  }
  scheduled name started finished command (err e) = record {
    schedule_name = name;
    started_at = started;
    finished_at = finished;
    command = command;
    result = none;
    error = some e;
  }

  -- The body that the methods share: the command, the use case, and whatever either raises. What the
  -- use case does outside is what it returns beside its answer.
  unfoldable pub attempt :
      {J : Type 0}
      → String
      → Datetime
      → Datetime
      → Result C
      → (C → Result R × J)
      → J
      → Scheduled C R × J
  attempt name started finished (err e) usecase nothing =
      (scheduled name started finished none (err e), nothing)
  attempt name started finished (ok command) usecase nothing =
      let (answer, made) = usecase command in
      (scheduled name started finished (some command) answer, made)

module _ ⦃context : Context⦄ (ports : Ports) (name : String) (started finished : Datetime) where
  -- `run_trade_execution`
  unfoldable pub run_trade_execution :
      Result ExecuteTradeCommand
      → Journal
      → Scheduled ExecuteTradeCommand ExecuteTradeResult × Journal
  run_trade_execution command j = attempt name started finished command (λ c. execute ports c j) j

  -- `close_position`
  unfoldable pub close_position :
      Result ClosePositionCommand
      → Journal
      → Scheduled ClosePositionCommand ClosePositionResult × Journal
  close_position command j = attempt name started finished command (λ c. close ports c j) j

  -- `sync_position`, whose use case only reads.
  unfoldable pub sync_position :
      Result SyncPositionCommand
      → Journal
      → Scheduled SyncPositionCommand SyncPositionResult × Journal
  sync_position command j = attempt name started finished command (λ c. lift (sync ports c) j) j

  -- `manage_open_position`
  unfoldable pub manage_open_position :
      Result ManageOpenPositionCommand
      → Journal
      → Scheduled ManageOpenPositionCommand ManageOpenPositionResult × Journal
  manage_open_position command j = attempt name started finished command (λ c. manage ports c j) j

module _ (name : String) (started finished : Datetime) where
  -- `run_lifecycle`
  unfoldable pub run_lifecycle :
      StrategyRepository
      → StrategyRepository
      → Result RunStrategyLifecycleCommand
      → Scheduled RunStrategyLifecycleCommand RunStrategyLifecycleResult × Saves
  run_lifecycle repository later command =
      attempt name started finished command (execute_run repository later) []

  abbrev pub cycle_or_refuse :
      ⦃context : Context⦄
      → Option CyclePorts
      → RunStrategyBacktestCycleCommand
      → Result (List StrategyBacktestCycleItem) × List Save
  cycle_or_refuse none command =
      (err (runtime_error "run_strategy_backtest_cycle_usecase is not configured"), [])
  cycle_or_refuse (some ports) command = execute_cycle ports command

  -- `run_backtest_cycle`, whose use case may not be configured.
  unfoldable pub run_backtest_cycle :
      ⦃context : Context⦄
      → Option CyclePorts
      → Result RunStrategyBacktestCycleCommand
      → Scheduled RunStrategyBacktestCycleCommand (List StrategyBacktestCycleItem) × List Save
  run_backtest_cycle ports command =
      attempt name started finished command (cycle_or_refuse ports) []
