-- ===== src/Tests/Positions.antt =====
-- The theorems on positions, risk, levels and markets, applied.
use gptrader_mw_v.Prelude.{
  ◌≤◌, ◌≡◌, refl, none, some, [], ok, Returns, is_blank, pos, ◌≤ℤ◌, ◌-ℤ◌, ◌+ℤ◌, ◌*ℤ◌, arith,
}
use gptrader_mw_v.Decimal.{minus, plus, times, divide}
use gptrader_mw_v.Decimal.Plain.{plain}
use gptrader_mw_v.Market.{make_snapshot, candles, latest_candle}
use gptrader_mw_v.Market.Snapshots.{SameMarket, Chronological, make_snapshot-ok}
use gptrader_mw_v.Signal.{long, short, TradeDecision, enter_long}
use gptrader_mw_v.Position.{
  Position, PositionEvent, increase, close, opened, apply_event, check_position,
}
use gptrader_mw_v.Position.Events.{
  IsValid, Applied, SamePosition, Decreased, apply_event-decrease, apply_event-Applied,
}
use gptrader_mw_v.Strategy.{StrategyContext, TakeProfitStopLossLevels, calculate_fixed_ratio}
use gptrader_mw_v.Strategy.Levels.{Ordered, calculate_fixed_ratio-Ordered}
use gptrader_mw_v.Risk.{PositionSizer, FixedPositionSizingStrategy, check_entry, size}
use gptrader_mw_v.Risk.Limits.{Verdict, check_entry-Verdict}
use gptrader_mw_v.Risk.Sizing.{Fits, size-Fits}
use gptrader_mw_v.Tests.Samples.{
  units, snapshot, indicators, signal_to, fixed_ratio, position, position-IsValid, exposure_limit,
}

abbrev adding : PositionEvent
adding = record {
  event_type = increase;
  quantity = units 2;
  price = some (units 50);
  direction = some short;
}

abbrev added : Position
added = record {
  symbol = position.symbol;
  direction = short;
  quantity = units 4;
  average_entry_price = units 75;
  status = opened;
}

added_run : apply_event position adding ≡ ok added
unfolding apply_event divide plus ◌+ℤ◌ check_position ◌*ℤ◌ times
added_run = refl

apply_event-Applied_example :
    (position.status ≡ opened)
    × IsValid added
    × SamePosition position added
    × Applied increase position adding added
apply_event-Applied_example = apply_event-Applied position added adding position-IsValid added_run

abbrev closing : PositionEvent
closing = record { event_type = close; quantity = units 2; price = none; direction = none }

apply_event-decrease_example : Returns (Decreased position closing) (apply_event position closing)
apply_event-decrease_example =
    apply_event-decrease position closing position-IsValid refl (λ h. cc) (omega arith)

abbrev decision : TradeDecision
decision = record { action = enter_long; signal = signal_to long }

check_entry-Verdict_example :
    Returns
      (Verdict decision exposure_limit (units 500))
      (check_entry decision exposure_limit (units 500))
check_entry-Verdict_example = check_entry-Verdict decision exposure_limit (units 500) (omega arith)

abbrev sizer : PositionSizer
sizer = record { base_risk_ratio = pos 10000; leverage = units 3 }

size-Fits_example :
    Returns (Fits exposure_limit (units 100)) (size sizer decision exposure_limit (units 100))
size-Fits_example =
    size-Fits sizer decision exposure_limit (units 100) refl (omega arith) (omega arith)
      (omega arith) (omega arith) (omega arith)

abbrev fixed : FixedPositionSizingStrategy
fixed = record { equity_ratio = pos 10000; leverage = units 20 }

abbrev strategy_context : StrategyContext
strategy_context = record {
  market = snapshot;
  indicators = indicators;
  market_features = none;
  metadata = [];
}

abbrev long_levels : TakeProfitStopLossLevels
long_levels = record {
  strategy_name = "fixed";
  entry_price = units 100;
  take_profit = units 102;
  stop_loss = units 99;
}

long_levels_run : calculate_fixed_ratio fixed_ratio strategy_context long ≡ ok long_levels
unfolding calculate_fixed_ratio is_blank plus ◌+ℤ◌ times ◌*ℤ◌ minus ◌-ℤ◌
long_levels_run = refl

calculate_fixed_ratio-Ordered_example :
    (long_levels.entry_price ≡ (latest_candle snapshot).close_price)
    × (pos 1 ≤ℤ long_levels.stop_loss)
    × (pos 1 ≤ℤ long_levels.take_profit)
    × Ordered long long_levels
calculate_fixed_ratio-Ordered_example =
    calculate_fixed_ratio-Ordered fixed_ratio strategy_context long long_levels (omega arith)
      (omega arith) long_levels_run

snapshot_run : make_snapshot (candles snapshot) ≡ ok snapshot
unfolding make_snapshot
snapshot_run = refl

make_snapshot-ok_example :
    (candles snapshot ≡ candles snapshot)
    × SameMarket snapshot.first (candles snapshot)
    × Chronological snapshot.first snapshot.others
    × (snapshot.first.opened_at ≤ (latest_candle snapshot).opened_at)
make_snapshot-ok_example = make_snapshot-ok (candles snapshot) snapshot snapshot_run
