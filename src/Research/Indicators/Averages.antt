-- ===== src/Research/Indicators/Averages.antt =====
-- The averages that the loop of the default indicator factory gives, and the keys that they have.
use gptrader_mw_v.Prelude.{
  ℕ, ◌≤◌, ◌-◌, ◌++◌, pos, ◌≡◌, refl, inl, inr, true, String, eq_iff, ◌≢◌, Bool-cases, subst, str_eq,
  sym, ap, ◌∙◌, str_ℕ, read_ℕ, read_ℕ-str_ℕ, after_prefix, after_prefix-++, Option, some,
  Option-cases, Result-cases, List, [], ◌∷◌, ok, >>=-eq-ok, OnOk, is_in, arith,
}
use Prim.Native.String
use mathlib.Core.Bool.{false≢true}
use mathlib.Core.Option.{some-injective, none-ne-some}
use gptrader_mw_v.Decimal.{Decimal, Context, literal, plus, divide}
use gptrader_mw_v.Backtest.{drop_candles}
use gptrader_mw_v.Backtest.Exits.{drop-suffix}
use gptrader_mw_v.Research.Measures.{add_all}
use gptrader_mw_v.Market.{Candle, count, MarketSnapshot, candles, latest_candle}
use gptrader_mw_v.Strategy.{IndicatorValue}
use gptrader_mw_v.Strategy.MovingAverage.{find_indicator}
use gptrader_mw_v.Research.Indicators.{
  period_prefix, moving_average_period, computed_period, average_close, close_prices,
  latest_candles, moving_average, moving_averages,
}

-- The key of the moving average over a period.
abbrev pub average_key : ℕ → String
average_key period = String.◌++◌ period_prefix (str_ℕ period)

module _ ⦃context : Context⦄ where
  -- The closing prices of candles, added to a total one after another.
  abbrev pub sum_closes : Decimal → List Candle → Decimal
  sum_closes total [] = total
  sum_closes total (c ∷ cs) = sum_closes (plus total c.close_price) cs

  -- An indicator is the average closing price of the last candles of a snapshot, as many as the period
  -- says, and was measured when the latest one closed.
  pub record IsAverage (snapshot : MarketSnapshot) (n : ℕ) (v : IndicatorValue) : Type 0 where
    pub before : List Candle
    pub window : List Candle
    pub split : candles snapshot ≡ before ++ window
    pub counted : count window ≡ n
    pub divided : divide (sum_closes (pos 0) window) (literal n 1) ≡ ok v.value
    pub measured : v.measured_at ≡ (latest_candle snapshot).closed_at

  add_all-closes :
      (total : Decimal) (cs : List Candle) → add_all total (close_prices cs) ≡ sum_closes total cs
  unfolding add_all close_prices
  add_all-closes total [] = refl
  add_all-closes total (c ∷ cs) = add_all-closes (plus total c.close_price) cs

  pub moving_average-IsAverage :
      (snapshot : MarketSnapshot) (n : ℕ) (v : IndicatorValue)
      → n ≤ count (candles snapshot)
      → moving_average snapshot n ≡ ok v
      → (v.key ≡ average_key n) × IsAverage snapshot n v
  unfolding moving_average average_close latest_candles
  moving_average-IsAverage snapshot n v filled h =
      let all = candles snapshot in
      let window = drop_candles (count all - n) all in
      let (before, split, counted) = drop-suffix (count all - n) all in
      let (x, averaged, made) = >>=-eq-ok (average_close snapshot n) _ h in
      let sum = sym (add_all-closes (pos 0) window) in
      let divided : divide (sum_closes (pos 0) window) (literal n 1) ≡ ok x =
        ap (λ t. divide t (literal n 1)) sum ∙ averaged in
      (
        ground (arith, made),
        record {
          before = before;
          window = window;
          split = split;
          counted = omega (arith, counted);
          divided = ground (arith, divided, made);
          measured = ground (arith, made);
        },
      )

module _ (unicode_digit : ℕ → Option ℕ) where
  moving_average_period-average_key :
      (n : ℕ) → 1 ≤ n → moving_average_period unicode_digit (average_key n) ≡ some n
  unfolding moving_average_period
  moving_average_period-average_key n h =
      rw (after_prefix-++ period_prefix (str_ℕ n))
        (rw (read_ℕ-str_ℕ unicode_digit n) (ground arith))

  module _ ⦃context : Context⦄ (snapshot : MarketSnapshot) where
    -- A period that is computed is positive.
    pub computed_period-positive :
        (key : String) (p : ℕ) → computed_period unicode_digit snapshot key ≡ some p → 1 ≤ p
    unfolding moving_average_period
    computed_period-positive key p h = elim (Option-cases (after_prefix period_prefix key)) [
      | inl other ↦ ground arith
      | inr (text, found) ↦ elim (Option-cases (read_ℕ unicode_digit text)) [
        | inl other ↦ ground arith
        | inr (n, read) ↦ ground arith
      ]
    ]

    -- A period that is computed has as many candles.
    pub computed_period-filled :
        (key : String) (p : ℕ)
        → computed_period unicode_digit snapshot key ≡ some p
        → p ≤ count (candles snapshot)
    computed_period-filled key p h = elim (Option-cases (moving_average_period unicode_digit key)) [
      | inl other ↦ ground arith
      | inr (n, read) ↦ ground arith
    ]

    computed_period-average_key :
        (n : ℕ)
        → 1 ≤ n
        → n ≤ count (candles snapshot)
        → computed_period unicode_digit snapshot (average_key n) ≡ some n
    computed_period-average_key n h k = rw (moving_average_period-average_key n h) (ground arith)

    -- Two periods with the same key are equal.
    average_key-injective : (m n : ℕ) → 1 ≤ m → 1 ≤ n → average_key m ≡ average_key n → m ≡ n
    average_key-injective m n h k e = some-injective m n (
        sym (moving_average_period-average_key m h)
        ∙ ap (moving_average_period unicode_digit) e
        ∙ moving_average_period-average_key n k)

    -- A key that does not name the period is not the period's.
    is_in-other :
        (n : ℕ) (key : String) (keys : List String)
        → 1 ≤ n
        → n ≤ count (candles snapshot)
        → computed_period unicode_digit snapshot key ≢ some n
        → is_in (average_key n) (key ∷ keys) ≡ true
        → is_in (average_key n) keys ≡ true
    unfolding is_in
    is_in-other n key keys h k other i = elim (Bool-cases (str_eq (average_key n) key)) [
      | inl same ↦ absurd (
          other (
            subst (λ s. computed_period unicode_digit snapshot s ≡ some n)
              ((eq_iff (average_key n) key).0 same) (computed_period-average_key n h k)))
      | inr differs ↦ ground arith
    ]

    -- Whether the average over a period is found among indicators.
    abbrev pub IsFound : ℕ → List IndicatorValue → Type 0
    IsFound n values =
        (v : IndicatorValue) × (find_indicator (average_key n) values ≡ some v)
        × IsAverage snapshot n v

    -- The indicator of a period in front of those of the other keys.
    IsFound-first :
        (n p : ℕ) (key : String) (keys : List String) (v : IndicatorValue)
        (vs : List IndicatorValue)
        → 1 ≤ n
        → n ≤ count (candles snapshot)
        → is_in (average_key n) (key ∷ keys) ≡ true
        → computed_period unicode_digit snapshot key ≡ some p
        → (v.key ≡ average_key p) × IsAverage snapshot p v
        → (is_in (average_key n) keys ≡ true → IsFound n vs)
        → IsFound n (v ∷ vs)
    unfolding find_indicator
    IsFound-first n p key keys v vs h k i named (keyed, averaged) rest =
        elim (Bool-cases (str_eq v.key (average_key n))) [
          | inl same ↦
              let period =
                average_key-injective p n (computed_period-positive key p named) h
                  (sym keyed ∙ (eq_iff v.key (average_key n)).0 same) in
              (v, rw same refl, subst (λ m. IsAverage snapshot m v) period averaged)
          | inr differs ↦
              let other = λ (q : computed_period unicode_digit snapshot key ≡ some n).
                let same = some-injective p n (sym named ∙ q) in
                false≢true
                  (sym differs ∙ (eq_iff v.key (average_key n)).1 (keyed ∙ ap average_key same)) in
              rw differs (rest (is_in-other n key keys h k other i))
        ]

    -- What the loop gives for a period that one of the keys names.
    pub moving_averages-IsFound :
        (n : ℕ) (keys : List String)
        → 1 ≤ n
        → n ≤ count (candles snapshot)
        → is_in (average_key n) keys ≡ true
        → OnOk (IsFound n) (moving_averages unicode_digit snapshot keys)
    unfolding moving_averages is_in moving_average_period after_prefix
    moving_averages-IsFound n [] h k i = absurd (ground arith)
    moving_averages-IsFound n (key ∷ keys) h k i =
        elim (Option-cases (computed_period unicode_digit snapshot key)) [
          | inl none_of ↦ rw none_of (
              moving_averages-IsFound n keys h k
                (is_in-other n key keys h k (λ q. none-ne-some n (sym none_of ∙ q)) i))
          | inr (p, named) ↦ elim (Result-cases (moving_average snapshot p)) [
            | inr (x, raised) ↦ rw named (rw raised tt)
            | inl (v, computed) ↦
                elim (Result-cases (moving_averages unicode_digit snapshot keys)) [
                  | inr (x, raised) ↦ rw named (rw computed (rw raised tt))
                  | inl (vs, rest) ↦ rw named (
                      rw computed (
                        rw rest (
                          IsFound-first n p key keys v vs h k i named
                            (moving_average-IsAverage snapshot p v
                              (computed_period-filled key p named) computed)
                            (λ j. rw rest at (moving_averages-IsFound n keys h k j)))))
                ]
          ]
        ]
