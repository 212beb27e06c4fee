-- ===== src/Strategy/MovingAverage.antt =====
-- IndicatorSet (domain/indicator/indicator_set.py) and LatestCloseMovingAverageStrategy
-- (domain/strategy/implementations/moving_average_strategy.py). `normalize` is
-- `IndicatorValue.normalize_key`, `text_of` is `str` of a decimal.
use gptrader_mw_v.Prelude.{
  not, String, str_eq, Option, none, some, List, [], ◌∷◌, Result, ok, key_error, ◌>>=◌, ◌>>◌,
  refuse_if, or_raise, pos, ltb_ℤ, eqb_ℤ, max_ℤ, min_ℤ, ◌==◌, is_in, if◌then◌else◌,
}
use Prim.Native.String
use gptrader_mw_v.Decimal.{Decimal, Context, literal, minus, divide}
use gptrader_mw_v.Market.{Datetime, latest_candle}
use gptrader_mw_v.Signal.{
  Signal, SignalDirection, long, short, text, Metadata, make_reason, make_signal, wait_signal,
}
use gptrader_mw_v.Strategy.{
  IndicatorValue, IndicatorSet, StrategyContext, StrategyResult, make_strategy_result,
}
use gptrader_mw_v.Strategy.Atr.{abs}

-- The loop of `IndicatorSet.__post_init__`, with the keys that it has seen.
unfoldable pub check_values : Datetime → List String → List IndicatorValue → Result (Unit {0})
check_values measured_at value_keys [] = ok tt
check_values measured_at value_keys (v ∷ vs) = do
  refuse_if (not (v.measured_at == measured_at))
      "indicator value measured_at must match set measured_at"
  refuse_if (is_in v.key value_keys) "duplicate indicator key"
  check_values measured_at (v.key ∷ value_keys) vs

-- `IndicatorSet.__post_init__`
unfoldable pub make_indicator_set : IndicatorSet → Result IndicatorSet
unfolding check_values
make_indicator_set i = check_values i.measured_at [] i.values >> ok i

unfoldable pub find_indicator : String → List IndicatorValue → Option IndicatorValue
find_indicator key [] = none
find_indicator key (v ∷ vs) =
    let rest = find_indicator key vs in if str_eq v.key key then some v else rest

-- `IndicatorSet.get`
unfoldable pub get_indicator : (String → String) → IndicatorSet → String → Option IndicatorValue
unfolding find_indicator
get_indicator normalize i key = find_indicator (normalize key) i.values

-- `IndicatorSet.require`
unfoldable pub require_indicator : (String → String) → IndicatorSet → String → Result IndicatorValue
unfolding get_indicator
require_indicator normalize i key =
    or_raise (get_indicator normalize i key) (key_error (String.◌++◌ "missing indicator: " key))

pub record LatestCloseMovingAverageStrategy : Type 0 where
  pub name : String
  pub indicator_key : String

module _ ⦃context : Context⦄ where
  -- `_confidence`
  unfoldable pub confidence_of : Decimal → Decimal → Result Decimal
  confidence_of latest_close moving_average =
      if eqb_ℤ moving_average (pos 0)
      then ok (literal 1 1)
      else (divide (abs (minus latest_close moving_average)) moving_average >>= λ distance_ratio.
          ok (min_ℤ (literal 1 1) (max_ℤ (literal 1 10) distance_ratio)))

  module _ (normalize : String → String) (text_of : Decimal → String) where
    abbrev pub prices : Decimal → Decimal → Metadata
    prices latest_close moving_average =
        ("latest_close", text (text_of latest_close))
        ∷ ("moving_average", text (text_of moving_average))
        ∷ []

    unfoldable pub crossing : SignalDirection → String → String → Decimal → Decimal → Result Signal
    unfolding confidence_of make_reason make_signal
    crossing direction code message latest_close moving_average = do
      confidence ← confidence_of latest_close moving_average
      reason ← make_reason code message (prices latest_close moving_average)
      make_signal direction confidence (reason ∷ []) []

    unfoldable pub signal_of : Decimal → Decimal → Result Signal
    unfolding crossing wait_signal
    signal_of latest_close moving_average =
        if ltb_ℤ moving_average latest_close
        then crossing long "close_above_moving_average" "latest close is above moving average"
            latest_close moving_average
        else if ltb_ℤ latest_close moving_average
        then crossing short "close_below_moving_average" "latest close is below moving average"
            latest_close moving_average
        else wait_signal (
            ("reason", text "latest_close_equals_moving_average")
            ∷ prices latest_close moving_average)

    -- `evaluate`
    unfoldable pub evaluate :
        LatestCloseMovingAverageStrategy → StrategyContext → Result StrategyResult
    unfolding require_indicator signal_of make_strategy_result
    evaluate s c = do
      moving_average ← require_indicator normalize c.indicators s.indicator_key
      signal ← signal_of (latest_candle c.market).close_price moving_average.value
      make_strategy_result s.name signal (("indicator_key", text s.indicator_key) ∷ [])
