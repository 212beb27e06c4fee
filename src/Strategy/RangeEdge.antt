-- ===== src/Strategy/RangeEdge.antt =====
-- RangeEdgeReversionStrategy
-- (domain/strategy/implementations/range_edge_reversion_strategy.py). What `evaluate` changes is the
-- window, so it gives the strategy after it beside what it returns or raises.
use gptrader_mw_v.Prelude.{
  ℕ, ◌+◌, Bool, ◌||◌, ◌&&◌, String, Option, none, some, List, [], ◌∷◌, Result, ◌>>=◌, pos, leb_ℤ,
  ltb_ℤ, ltb, if◌then◌else◌,
}
use gptrader_mw_v.Decimal.{Decimal, Context, literal, plus, minus, times, divide}
use gptrader_mw_v.Market.{count, Candle, candles}
use gptrader_mw_v.Signal.{SignalDirection, long, short, make_signal, wait_signal}
use gptrader_mw_v.Strategy.{StrategyContext, StrategyResult, make_strategy_result}
use gptrader_mw_v.Strategy.Rolling.{RollingRange, new_range, range, reverse_onto}

pub record RangeEdgeReversionStrategy : Type 0 where
  pub name : String
  pub range_period : ℕ
  pub lower_band : Decimal
  pub upper_band : Decimal
  pub min_range_width : Decimal
  pub reclaim_return : Decimal
  pub window : Option RollingRange

abbrev pub or_new : Option RollingRange → ℕ → RollingRange
or_new none period = new_range period
or_new (some window) period = window

module _ ⦃context : Context⦄ where
  -- `StrategyResult(name=..., signal=Signal.wait())`
  unfoldable pub waiting : String → Result StrategyResult
  unfolding wait_signal make_strategy_result
  waiting name = do signal ← wait_signal []; make_strategy_result name signal []

  unfoldable pub signalling : String → SignalDirection → Decimal → Result StrategyResult
  unfolding make_signal make_strategy_result
  signalling name direction confidence = do
    signal ← make_signal direction confidence [] []
    make_strategy_result name signal []

  abbrev pub is_reclaimed_up : RangeEdgeReversionStrategy → Candle → Candle → Bool
  is_reclaimed_up s previous latest =
      leb_ℤ (times previous.close_price (plus (literal 1 1) s.reclaim_return)) latest.close_price

  abbrev pub is_reclaimed_down : RangeEdgeReversionStrategy → Candle → Candle → Bool
  is_reclaimed_down s previous latest =
      leb_ℤ latest.close_price (times previous.close_price (minus (literal 1 1) s.reclaim_return))

  unfoldable pub edge_signal :
      RangeEdgeReversionStrategy → Decimal → Candle → Candle → Result StrategyResult
  unfolding waiting signalling
  edge_signal s range_position previous latest =
      if leb_ℤ range_position s.lower_band && is_reclaimed_up s previous latest
      then signalling s.name long (literal 1 1)
      else if leb_ℤ s.upper_band range_position && is_reclaimed_down s previous latest
      then signalling s.name short (literal 1 1)
      else waiting s.name

  -- The part of `evaluate` after the test of the two prices.
  unfoldable pub edge_in_range :
      RangeEdgeReversionStrategy → Decimal → Decimal → Candle → Candle → Result StrategyResult
  unfolding waiting edge_signal
  edge_in_range s range_low range_high previous latest = do
    width_ratio ← divide (minus range_high range_low) range_low
    let position = divide (minus latest.close_price range_low) (minus range_high range_low)
    (if ltb_ℤ width_ratio s.min_range_width
        then waiting s.name
        else (position >>= λ range_position. edge_signal s range_position previous latest))

  -- The part of `evaluate` after `_range`.
  unfoldable pub edge_of :
      RangeEdgeReversionStrategy
      → Option (Decimal × Decimal)
      → Candle
      → Candle
      → Result StrategyResult
  unfolding waiting edge_in_range
  edge_of s none previous latest = waiting s.name
  edge_of s (some (range_low, range_high)) previous latest =
      if leb_ℤ range_low (pos 0) || leb_ℤ range_high range_low
      then waiting s.name
      else edge_in_range s range_low range_high previous latest

  -- `evaluate`, given the candles from the latest one on. A list of fewer than two is too short for
  -- every period.
  unfoldable pub evaluate_newest :
      RangeEdgeReversionStrategy → List Candle → RangeEdgeReversionStrategy × Result StrategyResult
  unfolding waiting range edge_of
  evaluate_newest s (latest ∷ previous ∷ older) =
      if ltb (count (latest ∷ previous ∷ older)) (s.range_period + 2)
      then (s, waiting s.name)
      else (let (window, found) = range (or_new s.window s.range_period) previous latest in
          (record s { window = some window }, edge_of s found previous latest))
  evaluate_newest s _ = (s, waiting s.name)

  unfoldable pub evaluate :
      RangeEdgeReversionStrategy
      → StrategyContext
      → RangeEdgeReversionStrategy × Result StrategyResult
  unfolding evaluate_newest reverse_onto
  evaluate s c = evaluate_newest s (reverse_onto (candles c.market) [])
