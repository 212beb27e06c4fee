-- ===== src/Tests/Composites.antt =====
-- The theorem on composite generators, applied.
use gptrader_mw_v.Prelude.{[], ok}
use gptrader_mw_v.Decimal.{Decimal}
use gptrader_mw_v.Decimal.Plain.{plain}
use gptrader_mw_v.Signal.{SignalDirection}
use gptrader_mw_v.Strategy.{StrategyContext, StrategyResult}
use gptrader_mw_v.Composite.{Strategy}
use gptrader_mw_v.Tests.Samples.{snapshot, indicators, signal_to}
use gptrader_mw_v.Prelude.{none}

abbrev voter : SignalDirection → Decimal → Strategy
voter d x = λ c.
    ok (record { name = "voter"; signal = record (signal_to d) { confidence = x }; metadata = [] })

abbrev sample : StrategyContext
sample = record {
  market = snapshot;
  indicators = indicators;
  market_features = none;
  metadata = [];
}

abbrev vote : SignalDirection → Decimal → StrategyResult
vote d x = record {
  name = "voter";
  signal = record (signal_to d) { confidence = x };
  metadata = [];
}
