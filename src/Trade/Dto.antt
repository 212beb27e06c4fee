-- ===== src/Trade/Dto.antt =====
-- application/usecases/trade/dto.py: commands and results, and the ports that the use cases call.
pub mod Entries
use gptrader_mw_v.Prelude.{
  ℕ, Bool, not, String, Option, List, Result, ok, err, ◌>>◌, refuse_if, ℤ, pos, ltb, leb_ℤ,
  is_blank, strip, is_empty,
}
use gptrader_mw_v.Decimal.{Decimal}
use gptrader_mw_v.Market.{Datetime, Symbol, Timeframe, MarketSnapshot, symbol_eq, timeframe_eq}
use gptrader_mw_v.Signal.{SignalDirection, TradeDecision}
use gptrader_mw_v.Position.{Position}
use gptrader_mw_v.Execution.{OrderRequest}
use gptrader_mw_v.Execution.Results.{OrderResult, ExecutionReport}
use gptrader_mw_v.Strategy.{
  IndicatorSet, MarketFeatureSet, StrategyContext, GeneratedSignal, TakeProfitStopLossLevels,
}
use gptrader_mw_v.Risk.{ExposureLimit, RiskCheck, PositionSizingDecision}
use gptrader_mw_v.Trade.Journal.{Journal, SignalLogEntry}

-- The ports, the signal generator and the strategies that the use cases call.
pub record Ports : Type 0 where
  pub load_snapshot : Symbol → Timeframe → ℤ → Result MarketSnapshot
  pub load_features : Symbol → Timeframe → Datetime → Result MarketFeatureSet
  pub generate : StrategyContext → Result GeneratedSignal
  pub record_signal : SignalLogEntry → Journal → Result (Unit {0})
  pub answer_order : OrderRequest → Journal → Result OrderResult
  pub load_execution_reports : Symbol → Datetime → Datetime → Result (List ExecutionReport)
  pub calculate_levels :
      Option (StrategyContext → SignalDirection → Result TakeProfitStopLossLevels)
  pub decide_size : Option (TradeDecision → ExposureLimit → Result PositionSizingDecision)

pub data TradeExecutionStatus : Type 0 where
  order_submitted skipped risk_rejected : TradeExecutionStatus

pub record ExecuteTradeCommand : Type 0 where
  pub symbol : Symbol
  pub timeframe : Timeframe
  pub candle_limit : ℤ
  pub indicators : IndicatorSet
  pub exposure_limit : ExposureLimit
  pub base_risk_ratio : Decimal
  pub leverage : Decimal
  pub client_order_id_prefix : String
  pub signal_id : String
  pub generator_id : String

-- `ExecuteTradeCommand.__post_init__`
unfoldable pub check_execute_command : ExecuteTradeCommand → Result ExecuteTradeCommand
check_execute_command c = do
  refuse_if (leb_ℤ c.candle_limit (pos 0)) "candle_limit must be positive"
  refuse_if (leb_ℤ c.base_risk_ratio (pos 0)) "base_risk_ratio must be positive"
  refuse_if (leb_ℤ c.leverage (pos 0)) "leverage must be positive"
  refuse_if (is_blank c.client_order_id_prefix) "client_order_id_prefix is required"
  refuse_if (is_blank c.signal_id) "signal_id is required"
  refuse_if (is_blank c.generator_id) "generator_id is required"
  ok c

pub record ExecuteTradeResult : Type 0 where
  pub status : TradeExecutionStatus
  pub generated_signal : GeneratedSignal
  pub risk_check : Option RiskCheck
  pub order_result : Option OrderResult
  pub take_profit_stop_loss : Option TakeProfitStopLossLevels
  pub protective_order_results : Option (OrderResult × OrderResult)
  pub reason : Option String

-- `SignalLogEntry.__post_init__`
unfoldable pub make_log_entry : String → String → GeneratedSignal → Result SignalLogEntry
unfolding strip is_empty
make_log_entry signal_id generator_id generated = do
  refuse_if (is_empty (strip signal_id)) "signal_id is required"
  refuse_if (is_empty (strip generator_id)) "generator_id is required"
  ok (record {
    signal_id = strip signal_id;
    generator_id = strip generator_id;
    generated_signal = generated;
  })

pub record ClosePositionCommand : Type 0 where
  pub position : Position
  pub client_order_id_prefix : String

-- `ClosePositionCommand.__post_init__`
unfoldable pub check_close_command : ClosePositionCommand → Result ClosePositionCommand
check_close_command c = do
  refuse_if (is_blank c.client_order_id_prefix) "client_order_id_prefix is required"
  ok c

pub record ClosePositionResult : Type 0 where
  pub status : TradeExecutionStatus
  pub order_result : Option OrderResult
  pub reason : Option String

pub record ManageOpenPositionCommand : Type 0 where
  pub position : Position
  pub timeframe : Timeframe
  pub candle_limit : ℤ
  pub indicators : IndicatorSet
  pub client_order_id_prefix : String
  pub signal_id : String
  pub generator_id : String

-- `ManageOpenPositionCommand.__post_init__`
unfoldable pub check_manage_command : ManageOpenPositionCommand → Result ManageOpenPositionCommand
check_manage_command c = do
  refuse_if (leb_ℤ c.candle_limit (pos 0)) "candle_limit must be positive"
  refuse_if (not (symbol_eq c.position.symbol c.indicators.symbol))
      "position and indicators symbol must match"
  refuse_if (not (timeframe_eq c.timeframe c.indicators.timeframe))
      "timeframe and indicators timeframe must match"
  refuse_if (is_blank c.client_order_id_prefix) "client_order_id_prefix is required"
  refuse_if (is_blank c.signal_id) "signal_id is required"
  refuse_if (is_blank c.generator_id) "generator_id is required"
  ok c

pub record ManageOpenPositionResult : Type 0 where
  pub status : TradeExecutionStatus
  pub generated_signal : Option GeneratedSignal
  pub close_result : Option ClosePositionResult
  pub reason : Option String

pub record SyncPositionCommand : Type 0 where
  pub position : Position
  pub since : Datetime
  pub until : Datetime

-- `SyncPositionCommand.__post_init__`
unfoldable pub check_sync_command : SyncPositionCommand → Result SyncPositionCommand
check_sync_command c = do
  refuse_if (ltb c.until c.since) "until must be greater than or equal to since"
  ok c

pub record SyncPositionResult : Type 0 where
  pub position : Position
  pub applied_reports : List ExecutionReport
