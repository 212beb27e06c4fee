-- ===== src/Backtest.antt =====
-- application/usecases/research: the backtest command (dto.py) and the helpers of
-- backtest_simulator.py. What a backtest calls stands in a record: the strategy, the indicator
-- factory, the optional strategies, and `Decimal(str(value))` for values that are no decimals.
pub mod Pricing
pub mod Simulator
pub mod Accounts
pub mod Rounds
pub mod Runs
pub mod Exits
pub mod Prefixes
use gptrader_mw_v.Prelude.{
  ℕ, suc, zero, ◌+◌, ◌-◌, Bool, true, false, not, ◌&&◌, ◌||◌, String, str_eq, Option, none, some,
  List, [], ◌∷◌, Result, ok, err, Error, value_error, key_error, ◌>>=◌, ◌>>◌, refuse_if, is_none,
  is_some, is_empty, strip, ℤ, pos, pos_part, ◌-ℤ◌, ltb_ℤ, leb_ℤ, eqb_ℤ, leb, if◌then◌else◌,
}
use Prim.Native.String
use gptrader_mw_v.Decimal.{Decimal, Context, literal, plus, minus, times, divide}
use gptrader_mw_v.Market.{
  Datetime, Symbol, Timeframe, Candle, MarketSnapshot, make_snapshot, candles, latest_candle,
}
use gptrader_mw_v.Signal.{
  SignalDirection, long, short, wait, is_long, is_short, Value, decimal, text, other, Metadata,
  TradeDecision, TradeDecisionAction,
}
use gptrader_mw_v.Strategy.{
  IndicatorSet, StrategyContext, StrategyResult, TakeProfitStopLossLevels, check_levels,
}
use gptrader_mw_v.Risk.{ExposureLimit, check_exposure_limit, PositionSizingDecision}

pub record BacktestPorts : Type 0 where
  pub evaluate : StrategyContext → Result StrategyResult
  pub make_indicators : MarketSnapshot → Result IndicatorSet
  pub calculate_levels :
      Option (StrategyContext → SignalDirection → Result TakeProfitStopLossLevels)
  pub decide_size : Option (TradeDecision → ExposureLimit → Result PositionSizingDecision)
  pub read_decimal : Value → Option Decimal

pub record BacktestStrategyCommand : Type 0 where
  pub target_id : String
  pub symbol : Symbol
  pub timeframe : Timeframe
  pub candle_limit : ℤ
  pub start_at : Option Datetime
  pub end_at : Option Datetime
  pub initial_equity : Decimal
  pub risk_ratio : Decimal
  pub leverage : Decimal
  pub fee_rate : Decimal
  pub slippage_rate : Decimal
  pub metadata : Metadata

-- `(start_at is None) != (end_at is None)`
abbrev pub is_half_open : Option Datetime → Option Datetime → Bool
is_half_open none none = false
is_half_open (some s) (some e) = false
is_half_open s e = true

abbrev pub is_reversed : Option Datetime → Option Datetime → Bool
is_reversed (some s) (some e) = leb e s
is_reversed s e = false

-- `BacktestStrategyCommand.__post_init__`
unfoldable pub check_backtest_command : BacktestStrategyCommand → Result BacktestStrategyCommand
unfolding strip is_empty
check_backtest_command c = do
  refuse_if (is_empty (strip c.target_id)) "target_id is required"
  refuse_if (leb_ℤ c.candle_limit (pos 0)) "candle_limit must be positive"
  refuse_if (is_half_open c.start_at c.end_at) "start_at and end_at must be provided together"
  refuse_if (is_reversed c.start_at c.end_at) "end_at must be after start_at"
  refuse_if (leb_ℤ c.initial_equity (pos 0)) "initial_equity must be positive"
  refuse_if (leb_ℤ c.risk_ratio (pos 0)) "risk_ratio must be positive"
  refuse_if (leb_ℤ c.leverage (pos 0)) "leverage must be positive"
  refuse_if (ltb_ℤ c.fee_rate (pos 0)) "fee_rate must be greater than or equal to zero"
  refuse_if (ltb_ℤ c.slippage_rate (pos 0)) "slippage_rate must be greater than or equal to zero"
  ok (record c { target_id = strip c.target_id })

-- `_OpenPosition`
pub record OpenPosition : Type 0 where
  pub direction : SignalDirection
  pub entry_price : Decimal
  pub quantity : Decimal
  pub entry_time : Datetime
  pub levels : Option TakeProfitStopLossLevels

pub record BacktestTrade : Type 0 where
  pub direction : SignalDirection
  pub entry_price : Decimal
  pub exit_price : Decimal
  pub quantity : Decimal
  pub gross_pnl : Decimal
  pub fee_paid : Decimal
  pub net_pnl : Decimal
  pub entry_time : Datetime
  pub exit_time : Datetime
  pub exit_reason : String

pub record BacktestPerformance : Type 0 where
  pub initial_equity : Decimal
  pub final_equity : Decimal
  pub net_pnl : Decimal
  pub return_ratio : Decimal
  pub max_drawdown_ratio : Decimal
  pub trade_count : ℕ
  pub winning_trade_count : ℕ
  pub losing_trade_count : ℕ
  pub win_rate : Decimal

-- `sum(1 for trade in trades if test(trade))`
unfoldable pub count_trades : (BacktestTrade → Bool) → List BacktestTrade → ℕ
count_trades test [] = 0
count_trades test (t ∷ ts) = (if test t then 1 else 0) + count_trades test ts

abbrev pub is_winning : BacktestTrade → Bool
is_winning t = ltb_ℤ (pos 0) t.net_pnl

abbrev pub is_losing : BacktestTrade → Bool
is_losing t = ltb_ℤ t.net_pnl (pos 0)

-- The exit of a candle at given levels.
abbrev pub exit_at : SignalDirection → TakeProfitStopLossLevels → Candle → Option (Decimal × String)
exit_at long l candle =
    if leb_ℤ candle.low_price l.stop_loss
    then some (l.stop_loss, "stop_loss")
    else if leb_ℤ l.take_profit candle.high_price
    then some (l.take_profit, "take_profit")
    else none
exit_at _ l candle =
    if leb_ℤ l.stop_loss candle.high_price
    then some (l.stop_loss, "stop_loss")
    else if leb_ℤ candle.low_price l.take_profit
    then some (l.take_profit, "take_profit")
    else none

-- `_exit_for_candle`, without a result for `(None, None)`.
abbrev pub exit_for_levels :
    Option TakeProfitStopLossLevels → SignalDirection → Candle → Option (Decimal × String)
exit_for_levels none d candle = none
exit_for_levels (some l) d candle = exit_at d l candle

unfoldable pub exit_for_candle : OpenPosition → Candle → Option (Decimal × String)
exit_for_candle position candle = exit_for_levels position.levels position.direction candle

-- `candles[start:]` and `candles[:count]`.
unfoldable pub drop_candles : ℕ → List Candle → List Candle
drop_candles zero cs = cs
drop_candles (suc n) [] = []
drop_candles (suc n) (c ∷ cs) = drop_candles n cs

unfoldable pub take_candles : ℕ → List Candle → List Candle
take_candles zero cs = []
take_candles (suc n) [] = []
take_candles (suc n) (c ∷ cs) = c ∷ take_candles n cs

-- `_rolling_snapshot`
unfoldable pub rolling_snapshot : MarketSnapshot → ℕ → ℤ → Result MarketSnapshot
unfolding drop_candles take_candles
rolling_snapshot market index candle_limit =
    let start = pos_part (pos (index + 1) -ℤ candle_limit) in
    make_snapshot (drop_candles start (take_candles (index + 1) (candles market)))

-- `_is_opposite_signal`
unfoldable pub is_opposite_signal : SignalDirection → SignalDirection → Bool
is_opposite_signal position signal =
    is_long position && is_short signal || is_short position && is_long signal

-- `_entry_action`
abbrev pub entry_action : SignalDirection → TradeDecisionAction
entry_action long = TradeDecisionAction.enter_long
entry_action short = TradeDecisionAction.enter_short
entry_action wait = TradeDecisionAction.hold

-- `metadata.get(key)`
unfoldable pub get : Metadata → String → Option Value
get [] key = none
get ((k, v) ∷ m) key = let rest = get m key in if str_eq k key then some v else rest

module _ (ports : BacktestPorts) where
  -- `_decimal_metadata`
  unfoldable pub decimal_metadata : Option Value → Option Decimal
  decimal_metadata none = none
  decimal_metadata (some (decimal x)) = some x
  decimal_metadata (some (text s)) = ports.read_decimal (text s)
  decimal_metadata (some (other n)) = ports.read_decimal (other n)

  -- `entry_price or close_price`
  abbrev pub price_or : Option Decimal → Decimal → Decimal
  price_or none close = close
  price_or (some x) close = if eqb_ℤ x (pos 0) then close else x

  abbrev pub metadata_levels :
      String → Option Decimal → Option Decimal → Decimal → Result (Option TakeProfitStopLossLevels)
  metadata_levels name (some take_profit) (some stop_loss) entry_price = do
    levels ← check_levels (record {
      strategy_name = String.◌++◌ name "-metadata";
      entry_price = entry_price;
      take_profit = take_profit;
      stop_loss = stop_loss;
    })
    ok (some levels)
  metadata_levels name take_profit stop_loss entry_price = ok none

  -- `_levels_from_signal_metadata`
  unfoldable pub levels_from_signal_metadata :
      StrategyResult → StrategyContext → Result (Option TakeProfitStopLossLevels)
  unfolding get decimal_metadata
  levels_from_signal_metadata result c =
      let m = result.signal.metadata in
      let entry_price = decimal_metadata (get m "entry_price") in
      metadata_levels result.name (decimal_metadata (get m "take_profit"))
        (decimal_metadata (get m "stop_loss"))
        (price_or entry_price (latest_candle c.market).close_price)
