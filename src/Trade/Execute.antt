-- ===== src/Trade/Execute.antt =====
-- ExecuteTradeUseCase (application/usecases/trade/execute_trade_usecase.py), with the protective
-- orders as BinanceOrderExecutionAdapter submits them. Logging calls are left out.
pub mod Protective
pub mod Orders
pub mod Traces
use gptrader_mw_v.Prelude.{
  Bool, true, false, not, String, Option, none, some, Result, ok, List, ℤ, if◌then◌else◌,
}
use Prim.Native.String
use gptrader_mw_v.Decimal.{Decimal, Context, times, divide}
use gptrader_mw_v.Market.{Symbol, latest_candle}
use gptrader_mw_v.Signal.{
  Signal, SignalDirection, long, short, wait, TradeDecision, TradeDecisionAction, enter_long,
  enter_short, hold, is_entry, make_decision,
}
use gptrader_mw_v.Execution.{OrderRequest, market_request, take_profit_request, stop_request}
use gptrader_mw_v.Execution.Results.{OrderResult}
use gptrader_mw_v.Strategy.{
  StrategyContext, GeneratedSignal, TakeProfitStopLossLevels, make_context,
}
use gptrader_mw_v.Risk.{
  ExposureLimit, RiskCheck, RiskDecisionReason, allowed, not_entry_decision,
  total_exposure_exceeded, symbol_exposure_exceeded, PositionSize, PositionSizingDecision,
  check_position_size, check_entry, cap_notional, decide_fixed,
}
use gptrader_mw_v.Trade.Journal.{
  Journal, Call, SignalLogEntry, append_signal, submit, Action, pure, lift, perform, and_then,
  ◌>>=◌, ◌>>◌,
}
use gptrader_mw_v.Trade.Dto.{
  Ports, ExecuteTradeCommand, ExecuteTradeResult, TradeExecutionStatus, order_submitted, skipped,
  risk_rejected, make_log_entry,
}

-- `RiskDecisionReason.value`
abbrev pub reason_value : RiskDecisionReason → String
reason_value allowed = "allowed"
reason_value not_entry_decision = "not_entry_decision"
reason_value total_exposure_exceeded = "total_exposure_exceeded"
reason_value symbol_exposure_exceeded = "symbol_exposure_exceeded"

-- `_opposite_side`
abbrev pub opposite_side : SignalDirection → SignalDirection
opposite_side long = short
opposite_side _ = long

abbrev pub entry_action : SignalDirection → TradeDecisionAction
entry_action long = enter_long
entry_action short = enter_short
entry_action wait = hold

-- `ExecuteTradeUseCase._decision_from_signal`
unfoldable pub decision_from_signal : Signal → Result TradeDecision
unfolding make_decision
decision_from_signal signal = make_decision (entry_action signal.direction) signal

-- `ExecuteTradeUseCase._client_order_id`
unfoldable pub execute_order_id : ExecuteTradeCommand → String
execute_order_id c = String.◌++◌ c.client_order_id_prefix (String.◌++◌ "-" c.signal_id)

module _ (ports : Ports) where
  -- `OrderExecutionPort.submit_order`
  unfoldable pub submit_order : OrderRequest → Action OrderResult
  submit_order request = perform (submit request) (ports.answer_order request)

  -- `BinanceOrderExecutionAdapter.submit_take_profit_stop_loss_orders`
  unfoldable pub submit_take_profit_stop_loss_orders :
      Symbol → SignalDirection → Decimal → Decimal → String → Action (OrderResult × OrderResult)
  unfolding submit_order
  submit_take_profit_stop_loss_orders symbol direction take_profit stop_loss prefix = do
    let close_side = opposite_side direction
    take_profit_order ←
        lift (take_profit_request (String.◌++◌ prefix "-tp") symbol close_side take_profit)
    take_profit_result ← submit_order take_profit_order
    stop_loss_order ← lift (stop_request (String.◌++◌ prefix "-sl") symbol close_side stop_loss)
    stop_loss_result ← submit_order stop_loss_order
    pure (take_profit_result, stop_loss_result)

  -- `SignalLogRepositoryPort.append_signal`
  unfoldable pub log_signal : String → String → GeneratedSignal → Action (Unit {0})
  log_signal signal_id generator_id generated = do
    entry ← lift (make_log_entry signal_id generator_id generated)
    perform (append_signal entry) (ports.record_signal entry)

  abbrev pub levels_of :
      Option (StrategyContext → SignalDirection → Result TakeProfitStopLossLevels)
      → StrategyContext
      → SignalDirection
      → Result (Option TakeProfitStopLossLevels)
  levels_of none c d = ok none
  levels_of (some calculate) c d = elim (calculate c d) [
    | Result.ok l ↦ ok (some l)
    | Result.err e ↦ Result.err e
  ]

  abbrev pub protect :
      Option TakeProfitStopLossLevels
      → Symbol
      → SignalDirection
      → String
      → Action (Option (OrderResult × OrderResult))
  protect none symbol d id = pure none
  protect (some l) symbol d id = do
    results ← submit_take_profit_stop_loss_orders symbol d l.take_profit l.stop_loss id
    pure (some results)

  -- The end of `execute`: levels, market order and protective orders.
  unfoldable pub place_orders :
      ExecuteTradeCommand
      → StrategyContext
      → GeneratedSignal
      → PositionSize
      → RiskCheck
      → Action ExecuteTradeResult
  unfolding submit_order
  place_orders command c generated position_size risk_check = do
    let direction = generated.signal.direction
    levels ← lift (levels_of ports.calculate_levels c direction)
    let id = execute_order_id command
    order ← lift (market_request id command.symbol direction position_size.quantity false)
    order_result ← submit_order order
    protective ← protect levels command.symbol direction id
    pure (record {
      status = order_submitted;
      generated_signal = generated;
      risk_check = some risk_check;
      order_result = some order_result;
      take_profit_stop_loss = levels;
      protective_order_results = protective;
      reason = none;
    })

  module _ ⦃context : Context⦄ where
    abbrev pub sizing :
        Option (TradeDecision → ExposureLimit → Result PositionSizingDecision)
        → ExecuteTradeCommand
        → TradeDecision
        → Result PositionSizingDecision
    sizing (some decide) command decision = decide decision command.exposure_limit
    sizing none command decision =
        decide_fixed
          (record { equity_ratio = command.base_risk_ratio; leverage = command.leverage }) decision
          command.exposure_limit

    abbrev pub requested_by : ExecuteTradeCommand → PositionSizingDecision → Decimal
    requested_by command s = times (times command.exposure_limit.equity s.equity_ratio) s.leverage

    -- The middle of `execute`, on an entry decision: sizing and the risk check.
    unfoldable pub enter :
        ExecuteTradeCommand
        → StrategyContext
        → GeneratedSignal
        → TradeDecision
        → Decimal
        → Action ExecuteTradeResult
    enter command c generated decision entry_price = do
      sizing_decision ← lift (sizing ports.decide_size command decision)
      let requested_notional = requested_by command sizing_decision
      let capped_notional = cap_notional command.exposure_limit requested_notional
      quantity ← lift (divide capped_notional entry_price)
      position_size ←
          lift (check_position_size (record { notional = capped_notional; quantity = quantity }))
      risk_check ← lift (check_entry decision command.exposure_limit requested_notional)
      if not risk_check.is_allowed
          then pure (record {
            status = risk_rejected;
            generated_signal = generated;
            risk_check = some risk_check;
            order_result = none;
            take_profit_stop_loss = none;
            protective_order_results = none;
            reason = some (reason_value risk_check.reason);
          })
          else place_orders command c generated position_size risk_check

    -- `execute` from the decision on.
    unfoldable pub decide_and_enter :
        ExecuteTradeCommand
        → StrategyContext
        → GeneratedSignal
        → Decimal
        → Action ExecuteTradeResult
    decide_and_enter command c generated entry_price = do
      decision ← lift (decision_from_signal generated.signal)
      if not (is_entry decision.action)
          then pure (record {
            status = skipped;
            generated_signal = generated;
            risk_check = none;
            order_result = none;
            take_profit_stop_loss = none;
            protective_order_results = none;
            reason = some "non_entry_decision";
          })
          else enter command c generated decision entry_price

    -- `ExecuteTradeUseCase.execute`
    unfoldable pub execute : ExecuteTradeCommand → Action ExecuteTradeResult
    unfolding log_signal
    execute command = do
      market ← lift (ports.load_snapshot command.symbol command.timeframe command.candle_limit)
      let latest = latest_candle market
      features ←
          lift (ports.load_features market.first.symbol market.first.timeframe latest.closed_at)
      c ← lift (make_context market command.indicators (some features) List.[])
      generated ← lift (ports.generate c)
      log_signal command.signal_id command.generator_id generated
      decide_and_enter command c generated latest.close_price
