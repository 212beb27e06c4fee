-- ===== src/Tests/Samples.antt =====
-- A market, a signal, a position, orders and the ports that answer with them.
use gptrader_mw_v.Prelude.{ℕ, ◌+◌, ◌*◌, true, false, refl, none, some, [], ◌∷◌, ok, pos, arith}
use gptrader_mw_v.Decimal.{Decimal}
use gptrader_mw_v.Decimal.Plain.{plain}
use gptrader_mw_v.Market.{Symbol, Timeframe, Candle, MarketSnapshot}
use gptrader_mw_v.Signal.{SignalDirection, long, short, Signal}
use gptrader_mw_v.Position.{Position, opened}
use gptrader_mw_v.Position.Events.{IsValid}
use gptrader_mw_v.Execution.{OrderRequest, market}
use gptrader_mw_v.Execution.Results.{OrderResult, filled, ExecutionReport}
use gptrader_mw_v.Strategy.{
  IndicatorSet, MarketFeatureSet, GeneratedSignal, FixedRatioTakeProfitStopLossStrategy,
  calculate_fixed_ratio,
}
use gptrader_mw_v.Risk.{ExposureLimit}
use gptrader_mw_v.Trade.Dto.{
  Ports, ExecuteTradeCommand, ClosePositionCommand, ManageOpenPositionCommand, SyncPositionCommand,
}

abbrev pub units : ℕ → Decimal
units n = pos (n * 1000000)

abbrev pub eth : Symbol
eth = record { base_asset = "ETH"; quote_asset = "USDT" }

abbrev pub hourly : Timeframe
hourly = record { value = pos 1; unit = "h" }

abbrev pub candle_at : ℕ → ℕ → ℕ → ℕ → Candle
candle_at n low high close = record {
  symbol = eth;
  timeframe = hourly;
  opened_at = n * 3600000000;
  closed_at = n * 3600000000 + 3600000000;
  open_price = units low;
  high_price = units high;
  low_price = units low;
  close_price = units close;
  volume = units 5;
}

abbrev pub snapshot : MarketSnapshot
snapshot = record { first = candle_at 0 90 110 100; others = candle_at 1 95 115 100 ∷ [] }

abbrev pub indicators : IndicatorSet
indicators = record { symbol = eth; timeframe = hourly; measured_at = 7200000000; values = [] }

abbrev pub features : MarketFeatureSet
features = record {
  symbol = eth;
  timeframe = hourly;
  measured_at = 7200000000;
  values = [];
  unavailable_sources = [];
}

abbrev pub signal_to : SignalDirection → Signal
signal_to d = record { direction = d; confidence = units 1; reasons = []; metadata = [] }

abbrev pub generated_to : SignalDirection → GeneratedSignal
generated_to d = record { signal = signal_to d; strategy_results = []; metadata = [] }

abbrev pub fixed_ratio : FixedRatioTakeProfitStopLossStrategy
fixed_ratio = record { name = "fixed"; stop_loss_ratio = pos 10000; reward_risk_ratio = units 2 }

abbrev pub position : Position
position = record {
  symbol = eth;
  direction = short;
  quantity = units 2;
  average_entry_price = units 100;
  status = opened;
}

pub position-IsValid : IsValid position
position-IsValid = record {
  directed = refl;
  not_negative = omega arith;
  priced = omega arith;
  open_quantity = λ h. omega arith;
  closed_quantity = λ h. cc;
}

abbrev pub fill : Decimal → OrderResult
fill quantity = record {
  client_order_id = "x";
  status = filled;
  exchange_order_id = none;
  executed_quantity = some quantity;
  average_price = some (units 100);
  failure_reason = none;
}

abbrev pub reducing : Decimal → OrderRequest
reducing quantity = record {
  client_order_id = "x";
  symbol = eth;
  side = long;
  order_type = market;
  quantity = some quantity;
  limit_price = none;
  stop_price = none;
  reduce_only = true;
  close_position = false;
}

abbrev pub report : Decimal → ExecutionReport
report quantity = record { request = reducing quantity; result = fill quantity }

abbrev pub ports : Ports
ports = record {
  load_snapshot = λ s t n. ok snapshot;
  load_features = λ s t d. ok features;
  generate = λ c. ok (generated_to long);
  record_signal = λ entry j. ok tt;
  answer_order = λ r j. ok (fill (units 1));
  load_execution_reports = λ s a b. ok (report (units 1) ∷ []);
  calculate_levels = some (calculate_fixed_ratio fixed_ratio);
  decide_size = none;
}

abbrev pub exposure_limit : ExposureLimit
exposure_limit = record {
  equity = units 1000;
  current_total_exposure = units 0;
  current_symbol_exposure = units 0;
  max_total_exposure_ratio = units 2;
  max_symbol_exposure_ratio = units 1;
}

abbrev pub execute_command : ExecuteTradeCommand
execute_command = record {
  symbol = eth;
  timeframe = hourly;
  candle_limit = pos 2;
  indicators = indicators;
  exposure_limit = exposure_limit;
  base_risk_ratio = pos 100000;
  leverage = units 3;
  client_order_id_prefix = "gpt";
  signal_id = "s1";
  generator_id = "g1";
}

abbrev pub manage_command : ManageOpenPositionCommand
manage_command = record {
  position = position;
  timeframe = hourly;
  candle_limit = pos 2;
  indicators = indicators;
  client_order_id_prefix = "gpt";
  signal_id = "s1";
  generator_id = "g1";
}

abbrev pub close_command : ClosePositionCommand
close_command = record { position = position; client_order_id_prefix = "gpt" }

abbrev pub sync_command : SyncPositionCommand
sync_command = record { position = position; since = 0; until = 7200000000 }
