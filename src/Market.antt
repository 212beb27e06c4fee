-- ===== src/Market.antt =====
-- domain/market: symbols, timeframes, candles and snapshots. A `datetime` that is aware is the
-- number of microseconds since `datetime.min` in UTC, which is what Python compares.
pub mod Snapshots
use gptrader_mw_v.Prelude.{
  ℕ, suc, ◌+◌, ◌*◌, ◌-◌, Bool, true, false, ◌||◌, ◌&&◌, not, String, str_eq, Option, none, some,
  List, [], ◌∷◌, Result, ok, err, ◌>>=◌, ◌>>◌, refuse_if, or_raise, value_error, key_error, ℤ, pos,
  negsuc, ◌*ℤ◌, ltb_ℤ, leb_ℤ, eqb_ℤ, ltb, leb, ◌==◌, if◌then◌else◌, is_empty, strip,
}
use gptrader_mw_v.Decimal.{Decimal}
use Prim.Native.String

abbrev pub Datetime : Type 0
Datetime = ℕ

pub record Symbol : Type 0 where
  pub base_asset : String
  pub quote_asset : String

-- `Symbol.__post_init__`, with `str.upper` as an argument.
unfoldable pub make_symbol : (String → String) → String → String → Result Symbol
unfolding strip is_empty
make_symbol upper base quote = do
  let base_asset = upper (strip base)
  let quote_asset = upper (strip quote)
  refuse_if (is_empty base_asset) "base_asset is required"
  refuse_if (is_empty quote_asset) "quote_asset is required"
  refuse_if (str_eq base_asset quote_asset) "base_asset and quote_asset must be different"
  ok (record { base_asset = base_asset; quote_asset = quote_asset })

-- `Symbol.pair`
unfoldable pub pair : Symbol → String
pair s = String.◌++◌ s.base_asset s.quote_asset

abbrev pub symbol_eq : Symbol → Symbol → Bool
symbol_eq a b = str_eq a.base_asset b.base_asset && str_eq a.quote_asset b.quote_asset

pub record Timeframe : Type 0 where
  pub value : ℤ
  pub unit : String

abbrev pub timeframe_eq : Timeframe → Timeframe → Bool
timeframe_eq a b = eqb_ℤ a.value b.value && str_eq a.unit b.unit

-- `_SECONDS_BY_UNIT`
unfoldable pub seconds_by_unit : String → Option ℕ
seconds_by_unit unit =
    if str_eq unit "m"
    then some 60
    else if str_eq unit "h"
    then some 3600
    else if str_eq unit "d"
    then some 86400
    else if str_eq unit "w"
    then some 604800
    else none

-- `Timeframe.__post_init__`, with `str.lower` as an argument.
unfoldable pub make_timeframe : (String → String) → ℤ → String → Result Timeframe
unfolding strip
make_timeframe lower value unit = do
  refuse_if (leb_ℤ value (pos 0)) "timeframe value must be positive"
  let unit' = lower (strip unit)
  seconds ← or_raise (seconds_by_unit unit') (value_error "timeframe unit is not supported")
  ok (record { value = value; unit = unit' })

-- `Timeframe.duration_seconds`
unfoldable pub duration_seconds : Timeframe → Result ℤ
duration_seconds t = do
  seconds ← or_raise (seconds_by_unit t.unit) (key_error t.unit)
  ok (t.value *ℤ pos seconds)

pub record Candle : Type 0 where
  pub symbol : Symbol
  pub timeframe : Timeframe
  pub opened_at : Datetime
  pub closed_at : Datetime
  pub open_price : Decimal
  pub high_price : Decimal
  pub low_price : Decimal
  pub close_price : Decimal
  pub volume : Decimal

abbrev pub out_of_range : Candle → Decimal → Bool
out_of_range c price = ltb_ℤ price c.low_price || ltb_ℤ c.high_price price

-- `Candle.__post_init__`; the interval is compared in microseconds.
unfoldable pub check_candle : Candle → Result Candle
check_candle c = do
  refuse_if (leb c.closed_at c.opened_at) "closed_at must be after opened_at"
  seconds ← duration_seconds c.timeframe
  refuse_if (not (eqb_ℤ (pos (c.closed_at - c.opened_at)) (seconds *ℤ pos 1000000)))
      "candle interval must match timeframe"
  refuse_if (ltb_ℤ c.high_price c.low_price) "low_price must be less than or equal to high_price"
  refuse_if (out_of_range c c.open_price) "open_price must be within low_price and high_price"
  refuse_if (out_of_range c c.close_price) "close_price must be within low_price and high_price"
  refuse_if (ltb_ℤ c.volume (pos 0)) "volume must be greater than or equal to zero"
  ok c

-- The loop over the candles of a snapshot.
unfoldable pub check_same_market : Candle → List Candle → Result (Unit {0})
check_same_market first [] = ok tt
check_same_market first (c ∷ cs) =
    let rest = check_same_market first cs in
    refuse_if (not (symbol_eq c.symbol first.symbol)) "all candles must have the same symbol"
    >> (refuse_if (not (timeframe_eq c.timeframe first.timeframe))
          "all candles must have the same timeframe"
        >> rest)

-- `opened_times == sorted(opened_times)`: no time is before the one in front of it.
unfoldable pub is_chronological : Candle → List Candle → Bool
is_chronological c [] = true
is_chronological c (d ∷ ds) = leb c.opened_at d.opened_at && is_chronological d ds

-- A snapshot that was constructed: its first candle and the others.
pub record MarketSnapshot : Type 0 where
  pub first : Candle
  pub others : List Candle

abbrev pub candles : MarketSnapshot → List Candle
candles m = m.first ∷ m.others

-- `MarketSnapshot.__post_init__`
unfoldable pub make_snapshot : List Candle → Result MarketSnapshot
unfolding check_same_market is_chronological
make_snapshot [] = err (value_error "candles are required")
make_snapshot (c ∷ cs) = do
  check_same_market c (c ∷ cs)
  refuse_if (not (is_chronological c cs)) "candles must be chronological"
  ok (record { first = c; others = cs })

abbrev pub last : Candle → List Candle → Candle
last c [] = c
last c (d ∷ ds) = last d ds

-- `MarketSnapshot.latest_candle`
abbrev pub latest_candle : MarketSnapshot → Candle
latest_candle m = last m.first m.others

-- `len` of candles
abbrev pub count : List Candle → ℕ
count [] = 0
count (c ∷ cs) = suc (count cs)
