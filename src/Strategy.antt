-- ===== src/Strategy.antt =====
-- domain/strategy, domain/indicator and domain/market_feature, as far as a strategy's context and
-- its results go, and the take-profit and stop-loss levels with the fixed-ratio strategy. The other
-- strategies and the constructors of features are in the child modules.
pub mod Levels
pub mod Rolling
pub mod MovingAverage
pub mod Features
pub mod Atr
pub mod RangeEdge
pub mod Compression
use gptrader_mw_v.Prelude.{
  ℕ, Bool, true, false, ◌||◌, ◌&&◌, not, String, str_eq, Option, none, some, List, [], ◌∷◌, Result,
  ok, err, ◌>>=◌, ◌>>◌, refuse_if, or_raise, value_error, key_error, ℤ, pos, leb_ℤ, ◌==◌,
  if◌then◌else◌, is_blank, strip, is_empty,
}
use gptrader_mw_v.Decimal.{Decimal, Context, plus, minus, times}
use gptrader_mw_v.Market.{
  Datetime, Symbol, Timeframe, MarketSnapshot, symbol_eq, timeframe_eq, latest_candle,
}
use gptrader_mw_v.Signal.{Signal, SignalDirection, long, short, wait, is_wait, Metadata}

-- An indicator by the key that `IndicatorValue.key` computes.
pub record IndicatorValue : Type 0 where
  pub key : String
  pub value : Decimal
  pub measured_at : Datetime

pub record IndicatorSet : Type 0 where
  pub symbol : Symbol
  pub timeframe : Timeframe
  pub measured_at : Datetime
  pub values : List IndicatorValue

pub record MarketFeatureValue : Type 0 where
  pub name : String
  pub value : Decimal
  pub source : String
  pub observed_at : Datetime
  pub available_at : Datetime

pub record MarketFeatureSet : Type 0 where
  pub symbol : Symbol
  pub timeframe : Timeframe
  pub measured_at : Datetime
  pub values : List MarketFeatureValue
  pub unavailable_sources : List String

-- The entry of `metadata` under MARKET_FEATURES_METADATA_KEY is a field of its own.
pub record StrategyContext : Type 0 where
  pub market : MarketSnapshot
  pub indicators : IndicatorSet
  pub market_features : Option MarketFeatureSet
  pub metadata : Metadata

abbrev pub check_features : MarketSnapshot → Option MarketFeatureSet → Result (Unit {0})
check_features m none = ok tt
check_features m (some f) = do
  refuse_if (not (symbol_eq f.symbol m.first.symbol)) "market and market_features symbol must match"
  refuse_if (not (timeframe_eq f.timeframe m.first.timeframe))
      "market and market_features timeframe must match"
  refuse_if (not (f.measured_at == (latest_candle m).closed_at))
      "market_features measured_at must match latest candle closed_at"

-- `StrategyContext.__post_init__`
unfoldable pub make_context :
    MarketSnapshot → IndicatorSet → Option MarketFeatureSet → Metadata → Result StrategyContext
make_context m i f metadata = do
  refuse_if (not (symbol_eq m.first.symbol i.symbol)) "market and indicators symbol must match"
  refuse_if (not (timeframe_eq m.first.timeframe i.timeframe))
      "market and indicators timeframe must match"
  refuse_if (not ((latest_candle m).closed_at == i.measured_at))
      "indicators measured_at must match latest candle closed_at"
  check_features m f
  ok (record { market = m; indicators = i; market_features = f; metadata = metadata })

pub record StrategyResult : Type 0 where
  pub name : String
  pub signal : Signal
  pub metadata : Metadata

-- `StrategyResult.__post_init__`
unfoldable pub make_strategy_result : String → Signal → Metadata → Result StrategyResult
unfolding strip is_empty
make_strategy_result name signal metadata = do
  refuse_if (is_empty (strip name)) "name is required"
  ok (record { name = strip name; signal = signal; metadata = metadata })

pub record GeneratedSignal : Type 0 where
  pub signal : Signal
  pub strategy_results : List StrategyResult
  pub metadata : Metadata

-- The metadata of the levels, which repeats the parameters as texts, is left out.
pub record TakeProfitStopLossLevels : Type 0 where
  pub strategy_name : String
  pub entry_price : Decimal
  pub take_profit : Decimal
  pub stop_loss : Decimal

-- `TakeProfitStopLossLevels.__post_init__`
unfoldable pub check_levels : TakeProfitStopLossLevels → Result TakeProfitStopLossLevels
check_levels l = do
  refuse_if (is_blank l.strategy_name) "strategy_name is required"
  refuse_if (leb_ℤ l.entry_price (pos 0)) "entry_price must be positive"
  refuse_if (leb_ℤ l.take_profit (pos 0)) "take_profit must be positive"
  refuse_if (leb_ℤ l.stop_loss (pos 0)) "stop_loss must be positive"
  ok l

pub record FixedRatioTakeProfitStopLossStrategy : Type 0 where
  pub name : String
  pub stop_loss_ratio : Decimal
  pub reward_risk_ratio : Decimal

module _ ⦃context : Context⦄ where
  -- The stop loss and the take profit at a distance from the entry, by direction.
  abbrev pub levels_at : SignalDirection → Decimal → Decimal → Decimal → Decimal × Decimal
  levels_at long entry risk reward = (minus entry risk, plus entry reward)
  levels_at _ entry risk reward = (plus entry risk, minus entry reward)

  -- `FixedRatioTakeProfitStopLossStrategy.calculate`
  unfoldable pub calculate_fixed_ratio :
      FixedRatioTakeProfitStopLossStrategy
      → StrategyContext
      → SignalDirection
      → Result TakeProfitStopLossLevels
  unfolding check_levels
  calculate_fixed_ratio s c direction = do
    refuse_if (is_wait direction) "direction must be long or short"
    let entry = (latest_candle c.market).close_price
    let risk = times entry s.stop_loss_ratio
    let (stop_loss, take_profit) = levels_at direction entry risk (times risk s.reward_risk_ratio)
    check_levels (record {
      strategy_name = s.name;
      entry_price = entry;
      take_profit = take_profit;
      stop_loss = stop_loss;
    })
