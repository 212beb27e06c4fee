-- ===== src/Strategy/Rolling.antt =====
-- _RollingRange (domain/strategy/implementations/range_edge_reversion_strategy.py, and the same class
-- in volatility_compression_breakout_strategy.py) and _RollingAverage of the latter. A deque is a list
-- with its right end first.
pub mod Stairs
pub mod Windows
pub mod Ranges
use gptrader_mw_v.Prelude.{
  ℕ, zero, suc, ◌-◌, Bool, true, false, Option, none, some, List, [], ◌∷◌, Result, ok, pos, leb_ℤ,
  ltb, ◌==◌, if◌then◌else◌,
}
use gptrader_mw_v.Decimal.{Decimal, Context, literal, plus, minus, divide}
use gptrader_mw_v.Market.{count, Datetime, Candle}

-- What the deques hold: the number of a candle and its price.
pub record Entry : Type 0 where
  pub index : ℕ
  pub price : Decimal

pub record RollingRange : Type 0 where
  pub period : ℕ
  pub index : ℕ
  pub last_opened_at : Option Datetime
  pub highs : List Entry
  pub lows : List Entry

-- `_RollingRange.__init__`
abbrev pub new_range : ℕ → RollingRange
new_range period = record {
  period = period;
  index = 0;
  last_opened_at = none;
  highs = [];
  lows = [];
}

-- The loops of `_append` that take from the right end while its price is beaten.
unfoldable pub pop_right : (Decimal → Bool) → List Entry → List Entry
pop_right beaten [] = []
pop_right beaten (e ∷ es) =
    let rest = pop_right beaten es in if beaten e.price then rest else e ∷ es

abbrev pub keep_left : ℕ → Entry → List Entry → List Entry
keep_left earliest e [] = if ltb e.index earliest then [] else e ∷ []
keep_left earliest e (x ∷ xs) = e ∷ x ∷ xs

-- The loops of `_append` that take from the left end while its number is too early.
unfoldable pub pop_left : ℕ → List Entry → List Entry
pop_left earliest [] = []
pop_left earliest (e ∷ es) = keep_left earliest e (pop_left earliest es)

-- One of the two deques after `_append`, from the number and the price of the candle.
unfoldable pub slide : (Decimal → Decimal → Bool) → ℕ → ℕ → Decimal → List Entry → List Entry
unfolding pop_right pop_left
slide beats period index price es =
    pop_left (suc index - period)
      (record { index = index; price = price } ∷ pop_right (beats price) es)

abbrev pub is_at_least : Decimal → Decimal → Bool
is_at_least a b = leb_ℤ b a

abbrev pub is_at_most : Decimal → Decimal → Bool
is_at_most a b = leb_ℤ a b

-- `_append`
unfoldable pub append : RollingRange → Candle → RollingRange
unfolding slide
append r candle = record {
  period = r.period;
  index = suc r.index;
  last_opened_at = r.last_opened_at;
  highs = slide is_at_least r.period r.index candle.high_price r.highs;
  lows = slide is_at_most r.period r.index candle.low_price r.lows;
}

-- The price at the left end.
unfoldable pub leftmost : Decimal → List Entry → Decimal
leftmost price [] = price
leftmost price (e ∷ es) = leftmost e.price es

abbrev pub range_between : List Entry → List Entry → Option (Decimal × Decimal)
unfolding leftmost
range_between (h ∷ hs) (l ∷ ls) = some (leftmost l.price ls, leftmost h.price hs)
range_between _ _ = none

-- `_current_range`: the low and the high, if any.
unfoldable pub current_range : RollingRange → Option (Decimal × Decimal)
unfolding leftmost
current_range r = if ltb r.index r.period then none else range_between r.highs r.lows

abbrev pub was_opened_at : Option Datetime → Datetime → Bool
was_opened_at none t = false
was_opened_at (some s) t = s == t

-- `self.__init__(self._period)` when the latest candle is earlier than the last one.
unfoldable pub restart : Option Datetime → Datetime → RollingRange → RollingRange
restart none t r = r
restart (some s) t r = if ltb t s then new_range r.period else r

unfoldable pub advance : RollingRange → Candle → Candle → RollingRange
unfolding append restart
advance r previous latest = record (append (restart r.last_opened_at latest.opened_at r) previous) {
  last_opened_at = some latest.opened_at;
}

-- `range`, given the last two candles: the state after it and what it returns.
unfoldable pub range : RollingRange → Candle → Candle → RollingRange × Option (Decimal × Decimal)
unfolding current_range advance
range r previous latest =
    if was_opened_at r.last_opened_at latest.opened_at
    then (r, current_range r)
    else (advance r previous latest, current_range (advance r previous latest))

-- `candles` from the latest one on.
unfoldable pub reverse_onto : List Candle → List Candle → List Candle
reverse_onto [] done = done
reverse_onto (c ∷ cs) done = reverse_onto cs (c ∷ done)

-- The deque of volumes has its right end first.
pub record RollingAverage : Type 0 where
  pub period : ℕ
  pub values : List Decimal
  pub total : Decimal
  pub last_opened_at : Option Datetime

-- `_RollingAverage.__init__`
abbrev pub new_average : ℕ → RollingAverage
new_average period = record { period = period; values = []; total = pos 0; last_opened_at = none }

abbrev pub size : List Decimal → ℕ
size [] = 0
size (v ∷ vs) = suc (size vs)

-- The deque without its left end, and its left end.
unfoldable pub split_left : Decimal → List Decimal → List Decimal × Decimal
split_left v [] = ([], v)
split_left v (w ∷ ws) = let (rest, oldest) = split_left w ws in (v ∷ rest, oldest)

module _ ⦃context : Context⦄ where
  -- The loop that takes from the left end while there are more values than the period.
  unfoldable pub trim : ℕ → List Decimal → Decimal → List Decimal × Decimal
  unfolding split_left
  trim zero vs total = (vs, total)
  trim (suc excess) [] total = ([], total)
  trim (suc excess) (v ∷ vs) total =
      let (rest, oldest) = split_left v vs in trim excess rest (minus total oldest)

  -- `_current_average`
  unfoldable pub current_average : RollingAverage → Result Decimal
  current_average r =
      if ltb (size r.values) r.period
      then ok (pos 0)
      else divide r.total (literal (size r.values) 1)

  unfoldable pub add_volume : RollingAverage → Candle → RollingAverage
  unfolding trim
  add_volume r candle =
      let values = candle.volume ∷ r.values in
      let (kept, total) = trim (size values - r.period) values (plus r.total candle.volume) in
      record r { values = kept; total = total; last_opened_at = some candle.opened_at }

  -- `average`: the state after it and what it returns or raises.
  unfoldable pub average : RollingAverage → Candle → RollingAverage × Result Decimal
  unfolding current_average add_volume
  average r candle =
      if was_opened_at r.last_opened_at candle.opened_at
      then (r, current_average r)
      else (add_volume r candle, current_average (add_volume r candle))
