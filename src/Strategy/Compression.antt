-- ===== src/Strategy/Compression.antt =====
-- VolatilityCompressionBreakoutStrategy
-- (domain/strategy/implementations/volatility_compression_breakout_strategy.py). What `evaluate`
-- changes is its windows, so it gives the strategy after it beside what it returns or raises.
use gptrader_mw_v.Prelude.{
  ℕ, zero, suc, ◌+◌, Bool, true, false, ◌&&◌, String, Option, none, some, List, [], ◌∷◌, Result, ok,
  err, index_error, or_raise, ◌>>=◌, pos, leb_ℤ, ltb_ℤ, ltb, if◌then◌else◌,
}
use gptrader_mw_v.Decimal.{Decimal, Context, literal, plus, minus, times, divide}
use gptrader_mw_v.Market.{count, Candle, candles}
use gptrader_mw_v.Signal.{long, short}
use gptrader_mw_v.Strategy.{StrategyContext, StrategyResult}
use gptrader_mw_v.Strategy.Rolling.{
  RollingRange, RollingAverage, new_average, range, average, reverse_onto,
}
use gptrader_mw_v.Strategy.RangeEdge.{or_new, waiting, signalling}

pub record VolatilityCompressionBreakoutStrategy : Type 0 where
  pub name : String
  pub lookback : ℕ
  pub compression_period : ℕ
  pub compression_ratio : Decimal
  pub breakout_buffer : Decimal
  pub min_volume_ratio : Decimal
  pub direction_filter_period : ℕ
  pub min_filter_return : Decimal
  pub lookback_range : Option RollingRange
  pub compression_range : Option RollingRange
  pub volume_average : Option RollingAverage

abbrev pub or_new_average : Option RollingAverage → ℕ → RollingAverage
or_new_average none period = new_average period
or_new_average (some a) period = a

abbrev pub max_ℕ : ℕ → ℕ → ℕ
max_ℕ a b = if ltb a b then b else a

-- `candles[-n - 1]`, of the candles from the latest one on.
unfoldable pub candle_back : ℕ → List Candle → Option Candle
candle_back n [] = none
candle_back zero (c ∷ cs) = some c
candle_back (suc n) (c ∷ cs) = candle_back n cs

module _ ⦃context : Context⦄ where
  -- `_range_ratio`
  unfoldable pub range_ratio : Decimal → Decimal → Result Decimal
  range_ratio low high = if leb_ℤ low (pos 0) then ok (pos 0) else divide (minus high low) low

  -- Whether `evaluate` waits because the compression is too weak.
  unfoldable pub is_uncompressed :
      VolatilityCompressionBreakoutStrategy → Decimal × Decimal → Decimal × Decimal → Result Bool
  unfolding range_ratio
  is_uncompressed s (full_low, full_high) (compression_low, compression_high) = do
    full ← range_ratio full_low full_high
    compressed ← range_ratio compression_low compression_high
    (if leb_ℤ full (pos 0)
        then ok true
        else (divide compressed full >>= λ ratio. ok (ltb_ℤ s.compression_ratio ratio)))

  -- Whether it waits because the latest volume is too low.
  unfoldable pub is_quiet : VolatilityCompressionBreakoutStrategy → Decimal → Candle → Result Bool
  is_quiet s average_volume latest =
      if ltb_ℤ (pos 0) average_volume
      then (do ratio ← divide latest.volume average_volume; ok (ltb_ℤ ratio s.min_volume_ratio))
      else ok false

  -- The end of `evaluate`: the filter by trend and the breakout.
  unfoldable pub breakout_signal :
      VolatilityCompressionBreakoutStrategy
      → Decimal × Decimal
      → Candle
      → List Candle
      → Result StrategyResult
  unfolding waiting signalling candle_back
  breakout_signal s (full_low, full_high) latest newest = do
    base ← or_raise (candle_back s.direction_filter_period newest) index_error
    trend_return ← divide (minus latest.close_price base.close_price) base.close_price
    (if leb_ℤ s.min_filter_return trend_return
          && ltb_ℤ (times full_high (plus (literal 1 1) s.breakout_buffer)) latest.close_price
        then signalling s.name long (literal 86 100)
        else if leb_ℤ trend_return (minus (pos 0) s.min_filter_return)
            && ltb_ℤ latest.close_price (times full_low (minus (literal 1 1) s.breakout_buffer))
        then signalling s.name short (literal 86 100)
        else waiting s.name)

  -- The part of `evaluate` from `_average_volume` on, given the answer of the latter.
  unfoldable pub breakout_of :
      VolatilityCompressionBreakoutStrategy
      → Decimal × Decimal
      → Result Decimal
      → Candle
      → List Candle
      → Result StrategyResult
  unfolding waiting is_quiet breakout_signal
  breakout_of s full averaged latest newest = do
    average_volume ← averaged
    quiet ← is_quiet s average_volume latest
    if quiet then waiting s.name else breakout_signal s full latest newest

  -- The part of `evaluate` after the test of the compression, given its answer.
  unfoldable pub after_compression :
      VolatilityCompressionBreakoutStrategy
      → Result Bool
      → Decimal × Decimal
      → Candle
      → Candle
      → List Candle
      → VolatilityCompressionBreakoutStrategy × Result StrategyResult
  unfolding waiting average breakout_of
  after_compression s (err e) full latest previous newest = (s, err e)
  after_compression s (ok true) full latest previous newest = (s, waiting s.name)
  after_compression s (ok false) full latest previous newest =
      let (volumes, averaged) = average (or_new_average s.volume_average s.lookback) previous in
      (record s { volume_average = some volumes }, breakout_of s full averaged latest newest)

  -- The part of `evaluate` after both ranges.
  unfoldable pub after_ranges :
      VolatilityCompressionBreakoutStrategy
      → Option (Decimal × Decimal)
      → Option (Decimal × Decimal)
      → Candle
      → Candle
      → List Candle
      → VolatilityCompressionBreakoutStrategy × Result StrategyResult
  unfolding waiting is_uncompressed after_compression
  after_ranges s (some full) (some compressed) latest previous newest =
      after_compression s (is_uncompressed s full compressed) full latest previous newest
  after_ranges s _ _ latest previous newest = (s, waiting s.name)

  -- `evaluate`, given the candles from the latest one on.
  unfoldable pub evaluate_newest :
      VolatilityCompressionBreakoutStrategy
      → List Candle
      → VolatilityCompressionBreakoutStrategy × Result StrategyResult
  unfolding waiting range after_ranges
  evaluate_newest s (latest ∷ previous ∷ older) =
      let newest = latest ∷ previous ∷ older in
      if ltb (count newest) (max_ℕ s.lookback s.direction_filter_period + 2)
      then (s, waiting s.name)
      else (let (wide, full) = range (or_new s.lookback_range s.lookback) previous latest in
          let (narrow, compressed) =
            range (or_new s.compression_range s.compression_period) previous latest in
          after_ranges (record s { lookback_range = some wide; compression_range = some narrow })
            full compressed latest previous newest)
  evaluate_newest s _ = (s, waiting s.name)

  unfoldable pub evaluate :
      VolatilityCompressionBreakoutStrategy
      → StrategyContext
      → VolatilityCompressionBreakoutStrategy × Result StrategyResult
  unfolding evaluate_newest reverse_onto
  evaluate s c = evaluate_newest s (reverse_onto (candles c.market) [])
