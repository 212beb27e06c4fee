-- ===== src/Research/Indicators/Totality.antt =====
-- What the default indicator factory of a backtest cycle promises.
use gptrader_mw_v.Prelude.{
  ℕ, ◌≤◌, ◌≡◌, refl, inl, inr, Bool, true, false, ◌&&◌, not, String, str_eq, eq_iff, Option, none,
  some, Option-cases, Returns, Returns-value, List, [], ◌∷◌, ok, after_prefix, is_in, all_distinct,
  arith, sym, ap, ◌∙◌, pos,
}
use gptrader_mw_v.Decimal.{Context, literal}
use gptrader_mw_v.Decimal.Laws.{divide_returns, literal_pos}
use gptrader_mw_v.Market.{Datetime, count, MarketSnapshot, candles, latest_candle}
use gptrader_mw_v.Strategy.{IndicatorValue}
use gptrader_mw_v.Strategy.MovingAverage.{check_values, get_indicator, make_indicator_set}
use gptrader_mw_v.Research.Measures.{add_all}
use gptrader_mw_v.Research.Cycle.{StrategySpec}
use gptrader_mw_v.Research.Indicators.{
  moving_average_period, computed_period, average_close, moving_average, moving_averages,
  build_indicators, close_prices, latest_candles,
}
use gptrader_mw_v.Research.Indicators.Averages.{
  average_key, IsAverage, moving_average-IsAverage, computed_period-positive,
  computed_period-filled, moving_averages-IsFound,
}

-- No key is among those seen.
unfoldable none_in : List String → List String → Bool
none_in seen [] = true
none_in seen (k ∷ ks) = not (is_in k seen) && none_in seen ks

none_in-[] : (ks : List String) → none_in [] ks ≡ true
unfolding none_in is_in
none_in-[] [] = refl
none_in-[] (k ∷ ks) = none_in-[] ks

none_in-∷ :
    (k : String) (seen ks : List String)
    → is_in k ks ≡ false
    → none_in seen ks ≡ true
    → none_in (k ∷ seen) ks ≡ true
unfolding none_in is_in
none_in-∷ k seen [] h i = refl
none_in-∷ k seen (j ∷ js) h i = ground (arith, none_in-∷ k seen js, eq_iff j k, eq_iff k j)

check_values-∷ :
    (t : Datetime) (seen : List String) (v : IndicatorValue) (vs : List IndicatorValue)
    → v.measured_at ≡ t
    → is_in v.key seen ≡ false
    → check_values t (v.key ∷ seen) vs ≡ ok tt
    → check_values t seen (v ∷ vs) ≡ ok tt
unfolding check_values
check_values-∷ t seen v vs h i k = ground arith

-- The average over a positive period is computed without an error.
moving_average-returns :
    ⦃context : Context⦄ (snapshot : MarketSnapshot) (n : ℕ)
    → 1 ≤ n
    → (v : IndicatorValue) × (moving_average snapshot n ≡ ok v)
unfolding moving_average average_close
moving_average-returns snapshot n h =
    let (q, divided) =
      divide_returns (add_all (pos 0) (close_prices (latest_candles n snapshot))) (literal n 1)
        (literal_pos n h) in
    (
      record { key = average_key n; value = q; measured_at = (latest_candle snapshot).closed_at },
      rw divided refl,
    )

module _ (unicode_digit : ℕ → Option ℕ) where
  abbrev plain_as : String → Option ℕ → Bool
  plain_as key none = true
  plain_as key (some p) = str_eq key (average_key p)

  -- A key that names a period writes it as `str` does, without zeros in front.
  unfoldable pub are_plain : List String → Bool
  are_plain [] = true
  are_plain (key ∷ keys) = plain_as key (moving_average_period unicode_digit key) && are_plain keys

  module _ ⦃context : Context⦄ (snapshot : MarketSnapshot) where
    abbrev Distinct : List String → List IndicatorValue → Type 0
    Distinct seen vs = check_values (latest_candle snapshot).closed_at seen vs ≡ ok tt

    plain_key :
        (p : ℕ) (key : String) (keys : List String)
        → computed_period unicode_digit snapshot key ≡ some p
        → are_plain (key ∷ keys) ≡ true
        → key ≡ average_key p
    unfolding are_plain
    plain_key p key keys named h = elim (Option-cases (moving_average_period unicode_digit key)) [
      | inl none_of ↦ ground arith
      | inr (n, found) ↦ ground (arith, eq_iff key (average_key n))
    ]

    -- A value of the first key in front of those of the others.
    Distinct-first :
        (p : ℕ) (key : String) (keys seen : List String)
        → computed_period unicode_digit snapshot key ≡ some p
        → are_plain (key ∷ keys) ≡ true
        → is_in key seen ≡ false
        → Returns (Distinct (key ∷ seen)) (moving_averages unicode_digit snapshot keys)
        → Returns (Distinct seen) (moving_averages unicode_digit snapshot (key ∷ keys))
    unfolding moving_averages are_plain moving_average_period after_prefix
    Distinct-first p key keys seen named h i rest =
        let (v, computed) =
          moving_average-returns snapshot p
            (computed_period-positive unicode_digit snapshot key p named) in
        let (keyed, averaged) =
          moving_average-IsAverage snapshot p v
            (computed_period-filled unicode_digit snapshot key p named) computed in
        let same = keyed ∙ sym (plain_key p key keys named h) in
        let (vs, found, distinct) =
          Returns-value (moving_averages unicode_digit snapshot keys) rest in
        rw named (
          rw computed (
            rw found (
              check_values-∷ (latest_candle snapshot).closed_at seen v vs averaged.measured
                (ap (λ k. is_in k seen) same ∙ i) (rw same distinct))))

    -- The values of the loop have different keys, of which none is among those seen.
    moving_averages-Distinct :
        (keys seen : List String)
        → are_plain keys ≡ true
        → all_distinct keys ≡ true
        → none_in seen keys ≡ true
        → Returns (Distinct seen) (moving_averages unicode_digit snapshot keys)
    unfolding moving_averages check_values are_plain all_distinct none_in moving_average_period
        after_prefix
    moving_averages-Distinct [] seen h k i = refl
    moving_averages-Distinct (key ∷ keys) seen h k i =
        elim (Option-cases (computed_period unicode_digit snapshot key)) [
          | inl none_of ↦
              rw none_of
                (moving_averages-Distinct keys seen (ground arith) (ground arith) (ground arith))
          | inr (p, named) ↦ Distinct-first p key keys seen named h (ground arith) (
              moving_averages-Distinct keys (key ∷ seen) (ground arith) (ground arith)
                (none_in-∷ key seen keys (ground arith) (ground arith)))
        ]

    -- When the keys of a specification are different and those that name a period write it without
    -- zeros in front, build_strategy_backtest_cycle_indicators returns, and the set that it returns
    -- gives for the key of a moving average that the specification asks for the average of the latest
    -- closing prices, as many as the period says, measured when the latest candle closed. The period is
    -- positive, the snapshot has as many candles, and normalization leaves the key as it is.
    pub build_indicators-IsAverage :
        (normalize : String → String) (spec : StrategySpec) (n : ℕ)
        → normalize (average_key n) ≡ average_key n
        → are_plain spec.indicator_keys ≡ true
        → all_distinct spec.indicator_keys ≡ true
        → is_in (average_key n) spec.indicator_keys ≡ true
        → 1 ≤ n
        → n ≤ count (candles snapshot)
        → Returns
            (λ set.
              (v : IndicatorValue) × (get_indicator normalize set (average_key n) ≡ some v)
              × IsAverage snapshot n v)
            (build_indicators unicode_digit spec snapshot)
    unfolding build_indicators get_indicator make_indicator_set
    build_indicators-IsAverage normalize spec n normal plain distinct i h k =
        let (vs, found, checked) =
          Returns-value (moving_averages unicode_digit snapshot spec.indicator_keys) (
            moving_averages-Distinct spec.indicator_keys [] plain distinct
              (none_in-[] spec.indicator_keys)) in
        let kept = moving_averages-IsFound unicode_digit snapshot n spec.indicator_keys h k i in
        rw found (rw checked (rw normal (rw found at kept)))
