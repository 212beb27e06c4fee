-- ===== src/Market/Snapshots.antt =====
-- What a snapshot and a candle that were constructed satisfy.
use gptrader_mw_v.Prelude.{◌≤◌, ◌<◌, true, ◌≡◌, List, [], ◌∷◌, ok, pos, ◌≤ℤ◌, arith}
use gptrader_mw_v.Market.{
  Candle, MarketSnapshot, symbol_eq, timeframe_eq, check_candle, check_same_market,
  is_chronological, make_snapshot, candles, last, latest_candle,
}

-- Every candle of the list is of one market.
abbrev pub SameMarket : Candle → List Candle → Type 0
SameMarket first [] = Unit
SameMarket first (c ∷ cs) =
    (symbol_eq c.symbol first.symbol ≡ true)
    × (timeframe_eq c.timeframe first.timeframe ≡ true)
    × SameMarket first cs

-- The candles open in order.
abbrev pub Chronological : Candle → List Candle → Type 0
Chronological c [] = Unit
Chronological c (d ∷ ds) = (c.opened_at ≤ d.opened_at) × Chronological d ds

check_same_market-ok :
    (first : Candle) (cs : List Candle) → check_same_market first cs ≡ ok tt → SameMarket first cs
unfolding check_same_market
check_same_market-ok first [] h = tt
check_same_market-ok first (c ∷ cs) h = ground (arith, check_same_market-ok first cs)

is_chronological-ok :
    (c : Candle) (cs : List Candle) → is_chronological c cs ≡ true → Chronological c cs
unfolding is_chronological
is_chronological-ok c [] h = tt
is_chronological-ok c (d ∷ ds) h = ground (arith, is_chronological-ok d ds)

-- The latest candle opened no earlier than the first.
last-Chronological :
    (c : Candle) (cs : List Candle) → Chronological c cs → c.opened_at ≤ (last c cs).opened_at
last-Chronological c [] h = omega arith
last-Chronological c (d ∷ ds) h = omega (arith, last-Chronological d ds h.1)

-- A snapshot that is constructed holds the given candles in the given order, all of them of the
-- symbol and timeframe of the first, opened in order, the latest one no earlier than the first.
pub make_snapshot-ok :
    (cs : List Candle) (m : MarketSnapshot)
    → make_snapshot cs ≡ ok m
    → (candles m ≡ cs)
      × SameMarket m.first cs
      × Chronological m.first m.others
      × (m.first.opened_at ≤ (latest_candle m).opened_at)
unfolding make_snapshot
make_snapshot-ok [] m h = cc
make_snapshot-ok (c ∷ cs) m h =
    ground
      (arith, check_same_market-ok c (c ∷ cs), is_chronological-ok c cs, last-Chronological c cs)

-- The prices of a candle that was constructed.
pub record IsCandle (c : Candle) : Type 0 where
  pub lasting : c.opened_at < c.closed_at
  pub opened_low : c.low_price ≤ℤ c.open_price
  pub opened_high : c.open_price ≤ℤ c.high_price
  pub closed_low : c.low_price ≤ℤ c.close_price
  pub closed_high : c.close_price ≤ℤ c.high_price
  pub traded : pos 0 ≤ℤ c.volume

pub check_candle-ok : (c d : Candle) → check_candle c ≡ ok d → (d ≡ c) × IsCandle c
unfolding check_candle
check_candle-ok c d h = ground arith
