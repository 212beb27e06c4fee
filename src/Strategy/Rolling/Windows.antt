-- ===== src/Strategy/Rolling/Windows.antt =====
-- The deques of _RollingRange after a list of candles, and the range that they give.
use gptrader_mw_v.Prelude.{
  ℕ, zero, suc, ◌-◌, ◌≤◌, ◌≡◌, refl, ap, ◌∙◌, Bool, true, false, Option, none, some, List, [], ◌∷◌,
  max_ℤ, min_ℤ, ltb, if◌then◌else◌, arith,
}
use gptrader_mw_v.Decimal.{Decimal}
use gptrader_mw_v.Market.{count, Candle}
use gptrader_mw_v.Strategy.Rolling.{
  Entry, RollingRange, new_range, slide, append, is_at_least, is_at_most, leftmost, current_range,
  range_between,
}
use gptrader_mw_v.Strategy.Rolling.Stairs.{
  IsOrder, kept, Falling, stairs, best_of, pop_left-stairs, leftmost-stairs,
}

-- All lists of candles here begin with the latest.
unfoldable pub take : ℕ → List Candle → List Candle
take zero cs = []
take (suc n) [] = []
take (suc n) (c ∷ cs) = c ∷ take n cs

unfoldable pub highest : Candle → List Candle → Decimal
highest c [] = c.high_price
highest c (d ∷ ds) = max_ℤ c.high_price (highest d ds)

unfoldable pub lowest : Candle → List Candle → Decimal
lowest c [] = c.low_price
lowest c (d ∷ ds) = min_ℤ c.low_price (lowest d ds)

abbrev pub extremes : List Candle → Option (Decimal × Decimal)
unfolding highest lowest
extremes [] = none
extremes (c ∷ cs) = some (lowest c cs, highest c cs)

-- The low and the high of the last candles, as many as the period says; none if there are fewer.
unfoldable pub range_of : ℕ → List Candle → Option (Decimal × Decimal)
unfolding take highest lowest
range_of period cs = if ltb (count cs) period then none else extremes (take period cs)

is_at_least-IsOrder : IsOrder is_at_least
is_at_least-IsOrder = record {
  chains = λ a b c h k. ground (arith, h, k);
  connects = λ a b h. ground (arith, h);
}

is_at_most-IsOrder : IsOrder is_at_most
is_at_most-IsOrder = record {
  chains = λ a b c h k. ground (arith, h, k);
  connects = λ a b h. ground (arith, h);
}

kept-kept : (n m : ℕ) (es : List Entry) → n ≤ m → kept m (kept n es) ≡ kept m es
unfolding kept
kept-kept n m [] h = refl
kept-kept n m (e ∷ es) h = ground (arith, kept-kept n m es)

kept-Falling : (n : ℕ) (e : Entry) (es : List Entry) → Falling (e ∷ es) → Falling (e ∷ kept n es)
unfolding kept Falling
kept-Falling n e [] falling = tt
kept-Falling n e (d ∷ es) falling = by_cases (ltb d.index n) (kept-Falling n d es falling.1)
  where
    by_cases :
        (b : Bool) → Falling (d ∷ kept n es) → Falling (e ∷ (if b then [] else d ∷ kept n es))
    by_cases true rest = tt
    by_cases false rest = (falling.0, rest)

module _ (price_of : Candle → Decimal) where
  abbrev entry : Candle → List Candle → Entry
  entry c cs = record { index = count cs; price = price_of c }

  unfoldable numbered : List Candle → List Entry
  numbered [] = []
  numbered (c ∷ cs) = entry c cs ∷ numbered cs

  unfoldable numbered_take : ℕ → List Candle → List Entry
  numbered_take zero cs = []
  numbered_take (suc n) [] = []
  numbered_take (suc n) (c ∷ cs) = entry c cs ∷ numbered_take n cs

  unfoldable pub window_of : ℕ → List Candle → List Entry
  unfolding kept numbered
  window_of period cs = kept (count cs - period) (numbered cs)

  numbered-Falling : (cs : List Candle) → Falling (numbered cs)
  unfolding numbered Falling
  numbered-Falling [] = tt
  numbered-Falling (c ∷ []) = tt
  numbered-Falling (c ∷ d ∷ cs) = (omega arith, numbered-Falling (d ∷ cs))

  kept-numbered :
      (p : ℕ) (cs : List Candle) → kept (count cs - p) (numbered cs) ≡ numbered_take p cs
  unfolding kept numbered numbered_take
  kept-numbered zero [] = refl
  kept-numbered (suc p) [] = refl
  kept-numbered zero (c ∷ cs) = ground arith
  kept-numbered (suc p) (c ∷ cs) = ground (arith, kept-numbered p cs)

  -- A deque of the window, after one more candle, is that of the window that ends with it.
  slide-window :
      (beats : Decimal → Decimal → Bool) (period : ℕ) (c : Candle) (cs : List Candle)
      → slide beats period (count cs) (price_of c) (stairs beats (window_of period cs))
        ≡ stairs beats (window_of period (c ∷ cs))
  unfolding slide numbered stairs kept window_of
  slide-window beats period c cs =
      let first = suc (count cs) - period in
      pop_left-stairs beats first (entry c cs ∷ window_of period cs)
        (kept-Falling (count cs - period) (entry c cs) (numbered cs) (numbered-Falling (c ∷ cs)))
      ∙ ap (stairs beats)
          (ground (arith, kept-kept (count cs - period) first (numbered cs) (omega arith)))

best-highest :
    (n : ℕ) (c : Candle) (cs : List Candle)
    → best_of is_at_least (entry (λ d. d.high_price) c cs) (numbered_take (λ d. d.high_price) n cs)
      ≡ highest c (take n cs)
unfolding best_of numbered_take highest take
best-highest zero c cs = refl
best-highest (suc n) c [] = refl
best-highest (suc n) c (d ∷ cs) = ground (arith, best-highest n d cs)

best-lowest :
    (n : ℕ) (c : Candle) (cs : List Candle)
    → best_of is_at_most (entry (λ d. d.low_price) c cs) (numbered_take (λ d. d.low_price) n cs)
      ≡ lowest c (take n cs)
unfolding best_of numbered_take lowest take
best-lowest zero c cs = refl
best-lowest (suc n) c [] = refl
best-lowest (suc n) c (d ∷ cs) = ground (arith, best-lowest n d cs)

-- The state after the candles of a list have been appended.
pub record Holds (period : ℕ) (cs : List Candle) (r : RollingRange) : Type 0 where
  pub same_period : r.period ≡ period
  pub counted : r.index ≡ count cs
  pub high_stairs : r.highs ≡ stairs is_at_least (window_of (λ c. c.high_price) period cs)
  pub low_stairs : r.lows ≡ stairs is_at_most (window_of (λ c. c.low_price) period cs)

pub new_range-Holds : (period : ℕ) → Holds period [] (new_range period)
unfolding stairs kept numbered window_of
new_range-Holds period = record {
  same_period = refl;
  counted = refl;
  high_stairs = refl;
  low_stairs = refl;
}

pub append-Holds :
    (period : ℕ) (c : Candle) (cs : List Candle) (r : RollingRange)
    → Holds period cs r
    → Holds period (c ∷ cs) (append r c)
unfolding append
append-Holds period c cs r holds = record {
  same_period = holds.same_period;
  counted = ap (λ n. suc n) holds.counted;
  high_stairs =
      (λ i.
        slide is_at_least (holds.same_period i) (holds.counted i) c.high_price
          (holds.high_stairs i))
      ∙ slide-window (λ d. d.high_price) is_at_least period c cs;
  low_stairs =
      (λ i.
        slide is_at_most (holds.same_period i) (holds.counted i) c.low_price (holds.low_stairs i))
      ∙ slide-window (λ d. d.low_price) is_at_most period c cs;
}

range_between-extremes :
    (period : ℕ) (cs : List Candle)
    → (if ltb (count cs) period
        then none
        else range_between
            (stairs is_at_least (numbered_take (λ c. c.high_price) period cs))
            (stairs is_at_most (numbered_take (λ c. c.low_price) period cs)))
      ≡ range_of period cs
unfolding stairs numbered_take range_of leftmost take
range_between-extremes zero cs = refl
range_between-extremes (suc n) [] = refl
range_between-extremes (suc n) (c ∷ cs) = ground (
  arith,
  leftmost-stairs is_at_least is_at_least-IsOrder (entry (λ d. d.high_price) c cs)
      (numbered_take (λ d. d.high_price) n cs),
  leftmost-stairs is_at_most is_at_most-IsOrder (entry (λ d. d.low_price) c cs)
      (numbered_take (λ d. d.low_price) n cs),
  best-highest n c cs,
  best-lowest n c cs,
)

pub current_range-Holds :
    (period : ℕ) (cs : List Candle) (r : RollingRange)
    → Holds period cs r
    → current_range r ≡ range_of period cs
unfolding current_range window_of
current_range-Holds period cs r holds =
    rw
      (
        holds.same_period,
        holds.counted,
        holds.high_stairs,
        holds.low_stairs,
        kept-numbered (λ c. c.high_price) period cs,
        kept-numbered (λ c. c.low_price) period cs,
      )
      (range_between-extremes period cs)
