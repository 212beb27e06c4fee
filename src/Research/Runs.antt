-- ===== src/Research/Runs.antt =====
-- RunStrategyBacktestCycleUseCase.execute: one backtest and evaluation for each selected strategy.
use gptrader_mw_v.Prelude.{
  true, false, String, Option, none, some, List, [], ◌∷◌, Result, ok, err, Error, ◌>>=◌, pos,
}
use Prim.Native.String
use gptrader_mw_v.Decimal.{Decimal, Context, literal}
use gptrader_mw_v.Market.{MarketSnapshot}
use gptrader_mw_v.Signal.{Metadata, text, SignalDirection, TradeDecision}
use gptrader_mw_v.Strategy.{IndicatorSet, StrategyContext, TakeProfitStopLossLevels}
use gptrader_mw_v.Risk.{ExposureLimit, PositionSizingDecision}
use gptrader_mw_v.Signal.{Value}
use gptrader_mw_v.Backtest.{BacktestStrategyCommand, check_backtest_command}
use gptrader_mw_v.Lifecycle.{StrategyEvaluation, merge, put}
use gptrader_mw_v.Lifecycle.Definitions.{StrategyDefinition, make_strategy_definition}
use gptrader_mw_v.Research.{
  MarketData, BacktestStrategyResult, load_market, execute_backtest, backtest,
  check_evaluate_command, execute_evaluate,
}
use gptrader_mw_v.Research.Measures.{direction_value, metrics_from_backtest}
use gptrader_mw_v.Research.Cycle.{
  StrategySpec, Catalog, list_specs, create_strategy, RunStrategyBacktestCycleCommand,
  StrategyBacktestCycleItem, make_item, selected_specs,
}

-- What the repository is asked to save.
pub data Save : Type 0 where
  definition : StrategyDefinition → Save
  evaluation : StrategyEvaluation → Save

-- What the use case is made with. `name_of` is the name of an exception's class and `text_of` its text.
pub record CyclePorts : Type 0 where
  pub market_data : MarketData
  pub catalog : Catalog
  pub make_indicators : StrategySpec → MarketSnapshot → Result IndicatorSet
  pub calculate_levels :
      Option (StrategyContext → SignalDirection → Result TakeProfitStopLossLevels)
  pub decide_size : Option (TradeDecision → ExposureLimit → Result PositionSizingDecision)
  pub read_decimal : Value → Option Decimal
  pub answer_save : Save → Result (Unit {0})
  pub name_of : Error → String
  pub text_of : Error → String

-- `_definition_from_spec`
unfoldable pub definition_from_spec : StrategySpec → Result StrategyDefinition
definition_from_spec spec = make_strategy_definition (record {
  strategy_id = spec.strategy_id;
  name = spec.name;
  implementation = spec.implementation;
  version = spec.version;
  parameters = spec.parameters;
  metadata = spec.metadata;
})

module _ ⦃context : Context⦄ where
  module _ (ports : CyclePorts) (command : RunStrategyBacktestCycleCommand) where
    -- The metadata of the command with the id of the cycle.
    abbrev pub cycle_metadata : Metadata
    cycle_metadata = put (merge [] command.metadata) "cycle_id" (text command.cycle_id)

    -- `BacktestStrategyCommand(...)` with the defaults of the class.
    unfoldable pub backtest_command : StrategySpec → Result BacktestStrategyCommand
    unfolding merge put
    backtest_command spec = check_backtest_command (record {
      target_id = spec.strategy_id;
      symbol = spec.symbol;
      timeframe = spec.timeframe;
      candle_limit = spec.lookback_candle_limit;
      start_at = none;
      end_at = none;
      initial_equity = literal 10000 1;
      risk_ratio = literal 1 100;
      leverage = literal 1 1;
      fee_rate = pos 0;
      slippage_rate = pos 0;
      metadata = put cycle_metadata "strategy_version" (text spec.version);
    })

    abbrev pub evaluation_id : StrategySpec → String
    evaluation_id spec =
        String.◌++◌ command.cycle_id (String.◌++◌ ":" (String.◌++◌ spec.strategy_id ":backtest"))

    -- The call of `EvaluateStrategyUseCase` in `_run_one`.
    unfoldable pub evaluate_backtest :
        StrategySpec → BacktestStrategyResult → Result StrategyEvaluation
    unfolding merge put
    evaluate_backtest spec result = do
      metrics ← metrics_from_backtest result
      checked ← check_evaluate_command (record {
        evaluation_id = evaluation_id spec;
        target_id = spec.strategy_id;
        mode = backtest;
        metrics = metrics;
        metadata =
            put
              (put (put cycle_metadata "strategy_name" (text spec.name)) "strategy_version"
                (text spec.version))
              "signal_direction" (text (direction_value result.strategy_result.signal.direction));
      })
      execute_evaluate checked

    -- The backtest of `_run_one`; `_SnapshotMarketData` answers with the snapshot that was loaded.
    unfoldable pub backtest_one : StrategySpec → Result BacktestStrategyResult
    backtest_one spec = do
      snapshot ←
          load_market ports.market_data spec.symbol spec.timeframe spec.lookback_candle_limit
            command.start_at command.end_at
      strategy ← create_strategy ports.catalog spec
      indicators ← ports.make_indicators spec snapshot
      run ← backtest_command spec
      execute_backtest
          (record { load_snapshot = λ s t n. ok snapshot; load_candles_between = λ s t a b. ok [] })
          (record {
            evaluate = strategy;
            make_indicators = ports.make_indicators spec;
            calculate_levels = ports.calculate_levels;
            decide_size = ports.decide_size;
            read_decimal = ports.read_decimal;
          })
          run

    -- The item of a strategy that has been evaluated.
    abbrev pub succeeded_item : StrategySpec → Result StrategyBacktestCycleItem
    succeeded_item spec = make_item (record {
      strategy_id = spec.strategy_id;
      evaluation_id = some (evaluation_id spec);
      succeeded = true;
      error_type = none;
      error_message = none;
    })

    -- `_run_one`
    unfoldable pub run_one : StrategySpec → Result (StrategyBacktestCycleItem × StrategyEvaluation)
    run_one spec = do
      result ← backtest_one spec
      evaluated ← evaluate_backtest spec result
      item ← succeeded_item spec
      ok (item, evaluated)

    -- The item of `except Exception as exc`.
    unfoldable pub failed_item : StrategySpec → Error → Result StrategyBacktestCycleItem
    failed_item spec e = make_item (record {
      strategy_id = spec.strategy_id;
      evaluation_id = none;
      succeeded = false;
      error_type = some (ports.name_of e);
      error_message = some (ports.text_of e);
    })

    abbrev pub Outcome : Type 0
    Outcome = Result (List StrategyBacktestCycleItem) × List Save

    -- A call of the repository, and what follows it.
    abbrev pub after_save : Save → Result (Unit {0}) → Outcome → Outcome
    after_save save (ok u) (rest, saves) = (rest, save ∷ saves)
    after_save save (err e) (rest, saves) = (err e, save ∷ [])

    abbrev pub save_then : Save → Outcome → Outcome
    save_then save rest = after_save save (ports.answer_save save) rest

    abbrev pub item_then : StrategyBacktestCycleItem → Outcome → Outcome
    item_then item (ok items, saves) = (ok (item ∷ items), saves)
    item_then item (err e, saves) = (err e, saves)

    abbrev pub after_failure : Result StrategyBacktestCycleItem → Outcome → Outcome
    after_failure (ok item) rest = item_then item rest
    after_failure (err e) rest = (err e, [])

    -- The rest of a round, after the definition has been saved.
    abbrev pub after_run :
        StrategySpec → Result (StrategyBacktestCycleItem × StrategyEvaluation) → Outcome → Outcome
    after_run spec (ok (item, evaluated)) rest =
        save_then (evaluation evaluated) (item_then item rest)
    after_run spec (err e) rest = after_failure (failed_item spec e) rest

    abbrev pub with_definition : StrategySpec → Result StrategyDefinition → Outcome → Outcome
    with_definition spec (ok d) rest = save_then (definition d) (after_run spec (run_one spec) rest)
    with_definition spec (err e) rest = (err e, [])

    -- The loop of `execute`: the items, and what the repository was asked to save, in order.
    unfoldable pub run_specs : List StrategySpec → Outcome
    run_specs [] = (ok [], [])
    run_specs (spec ∷ specs) =
        let rest = run_specs specs in with_definition spec (definition_from_spec spec) rest

    -- `execute`
    unfoldable pub execute_cycle : Outcome
    unfolding run_specs list_specs selected_specs
    execute_cycle = run_specs (selected_specs (list_specs ports.catalog) command)
