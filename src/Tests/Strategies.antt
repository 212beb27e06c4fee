-- ===== src/Tests/Strategies.antt =====
-- The theorems on rolling ranges, levels and market features, applied.
use gptrader_mw_v.Prelude.{
  strip, is_empty, ◌≡◌, refl, none, some, [], ◌∷◌, ok, pos, ◌≤ℤ◌, arith, ◌+ℤ◌, ◌-ℤ◌, ◌*ℤ◌, is_blank,
  all_distinct, String, List,
}
use gptrader_mw_v.Decimal.{plus, minus, times, divide}
use gptrader_mw_v.Decimal.Plain.{plain}
use gptrader_mw_v.Market.{Candle, latest_candle}
use gptrader_mw_v.Signal.{long}
use gptrader_mw_v.Strategy.{StrategyContext, TakeProfitStopLossLevels, MarketFeatureSet}
use gptrader_mw_v.Strategy.Levels.{Ordered}
use gptrader_mw_v.Strategy.Rolling.{range}
use gptrader_mw_v.Strategy.Rolling.Windows.{range_of}
use gptrader_mw_v.Strategy.Rolling.Ranges.{watch, Newest, range-Window}
use gptrader_mw_v.Strategy.Atr.{AtrTakeProfitStopLossStrategy, check_atr, calculate_atr}
use gptrader_mw_v.Strategy.Atr.Bounds.{calculate_atr-Ordered}
use gptrader_mw_v.Strategy.Features.{make_feature_set, make_feature_value}
use gptrader_mw_v.Strategy.Features.Kept.{AreAccepted}
use gptrader_mw_v.Strategy.Features.Accepted.{AreConstructed}
use gptrader_mw_v.Strategy.Features.Totality.{load_features-Answered}
use gptrader_mw_v.Strategy.Features.Provider.{InMemoryMarketFeatureProvider, make_provider}
use gptrader_mw_v.Strategy.Features.Loading.{answer, load_features}
use gptrader_mw_v.Strategy.Features.Lookups.{load_features-latest}
use gptrader_mw_v.Strategy.Features.Sorting.{latest_row}
use gptrader_mw_v.Tests.Samples.{units, eth, hourly, candle_at, snapshot, indicators, features}

abbrev older : List Candle
older = candle_at 1 95 115 100 ∷ candle_at 0 80 130 100 ∷ []

abbrev previous : Candle
previous = candle_at 2 90 110 100

abbrev latest : Candle
latest = candle_at 3 70 140 100

older-Newest : Newest latest (previous ∷ older)
unfolding Newest
older-Newest = (omega arith, (omega arith, (omega arith, tt)))

range-Window_example :
    (range (watch 2 previous older) previous latest
      ≡ (watch 2 latest (previous ∷ older), range_of 2 (previous ∷ older)))
    × (range (watch 2 latest (previous ∷ older)) previous latest
        ≡ (watch 2 latest (previous ∷ older), range_of 2 (previous ∷ older)))
range-Window_example = range-Window 2 latest previous older older-Newest

-- The range leaves out the oldest candle and the latest one.
range_of_run : range_of 2 (previous ∷ older) ≡ some (units 90, units 115)
unfolding range_of
range_of_run = refl

abbrev atr : AtrTakeProfitStopLossStrategy
atr = record {
  name = "atr";
  atr_period = pos 1;
  atr_multiplier = pos 500000;
  reward_risk_ratio = units 2;
}

abbrev on_snapshot : StrategyContext
on_snapshot = record {
  market = snapshot;
  indicators = indicators;
  market_features = none;
  metadata = [];
}

abbrev atr_levels : TakeProfitStopLossLevels
atr_levels = record {
  strategy_name = "atr";
  entry_price = units 100;
  take_profit = units 120;
  stop_loss = units 90;
}

atr_check : check_atr atr ≡ ok atr
unfolding check_atr
atr_check = refl

atr_run : calculate_atr atr on_snapshot long ≡ ok atr_levels
unfolding calculate_atr is_blank plus ◌+ℤ◌ times ◌*ℤ◌ minus ◌-ℤ◌ divide
atr_run = refl

calculate_atr-Ordered_example :
    (atr_levels.entry_price ≡ (latest_candle snapshot).close_price)
    × (pos 1 ≤ℤ atr_levels.stop_loss)
    × (pos 1 ≤ℤ atr_levels.take_profit)
    × Ordered long atr_levels
calculate_atr-Ordered_example =
    calculate_atr-Ordered atr on_snapshot long atr_levels atr_check atr_run

abbrev earlier_features : MarketFeatureSet
earlier_features = record features {
  measured_at = 3600000000;
  values =
      record {
        name = "funding";
        value = units 1;
        source = "exchange";
        observed_at = 3600000000;
        available_at = 3600000000;
      }
      ∷ [];
}

abbrev given : List MarketFeatureSet
given = features ∷ earlier_features ∷ []

abbrev provider : InMemoryMarketFeatureProvider
provider = record {
  max_staleness = some (pos 7200000000);
  max_staleness_by_source = [];
  unavailable_sources = "news" ∷ [];
  rows_by_key =
      record { symbol = eth; timeframe = hourly; rows = earlier_features ∷ features ∷ [] } ∷ [];
}

abbrev conflict : List String → String
conflict names = "conflict"

abbrev field_name : String → String
field_name source = source

provider_run :
    make_provider conflict field_name given (some (pos 7200000000)) [] ("news" ∷ []) ≡ ok provider
unfolding make_provider all_distinct
provider_run = refl

load_features-latest_example :
    load_features provider eth hourly 5400000000
    ≡ answer provider eth hourly 5400000000 (latest_row eth hourly 5400000000 given)
load_features-latest_example =
    load_features-latest conflict field_name given (some (pos 7200000000)) [] ("news" ∷ []) provider
      eth hourly 5400000000 provider_run

-- At half past one the row of one o'clock is taken.
latest_row_run : latest_row eth hourly 5400000000 given ≡ some earlier_features
unfolding latest_row
latest_row_run = refl

given-AreConstructed : AreConstructed given
unfolding AreConstructed AreAccepted make_feature_set make_feature_value all_distinct strip is_empty
given-AreConstructed = (refl, tt, (refl, (refl, tt), tt))

load_features-Answered_example :
    (g : MarketFeatureSet) × (load_features provider eth hourly 5400000000 ≡ ok g)
    × (make_feature_set g ≡ ok g)
    × (g.measured_at ≡ 5400000000)
load_features-Answered_example =
    load_features-Answered conflict field_name given (some (pos 7200000000)) [] ("news" ∷ [])
      provider eth hourly 5400000000 given-AreConstructed provider_run
