-- ===== src/Composite/Votes.antt =====
-- The vote of a composite generator.
use gptrader_mw_v.Prelude.{◌≤◌, ◌≡◌, ◌≢◌, List, [], ◌∷◌, Result, ok, Returns, pos, ◌≤ℤ◌, ◌<ℤ◌}
use gptrader_mw_v.Decimal.{Decimal, Context, literal, divide}
use gptrader_mw_v.Signal.{SignalDirection, long, short, wait}
use gptrader_mw_v.Strategy.{StrategyResult, GeneratedSignal}
use gptrader_mw_v.Composite.{Strategy, results_of, length, score}

-- No result has a negative confidence, as the constructor of signals makes sure.
abbrev pub NotNegative : List StrategyResult → Type 0
NotNegative [] = Unit
NotNegative (r ∷ rs) = (pos 0 ≤ℤ r.signal.confidence) × NotNegative rs

module _ ⦃context : Context⦄ where
  -- The winner has the higher score and at least one vote.
  pub record Winner (d : SignalDirection) (rs : List StrategyResult) : Type 0 where
    pub long_wins : d ≡ long → score short rs <ℤ score long rs
    pub short_wins : d ≡ short → score long rs <ℤ score short rs
    pub nobody_wins :
        d ≡ wait → (score long rs ≤ℤ score short rs) × (score short rs ≤ℤ score long rs)
    pub voted : d ≢ wait → 1 ≤ length (results_of d rs)

  -- What a vote comes to: if nobody wins, a waiting signal; else the average confidence of the winner's
  -- votes, which is a decimal that is not negative, and a signal of that confidence unless rounding has
  -- put it above one.
  abbrev pub Outcome : SignalDirection → List StrategyResult → Result GeneratedSignal → Type 0
  Outcome wait rs g = Returns (λ x. (x.signal.direction ≡ wait) × (x.strategy_results ≡ rs)) g
  Outcome d rs g =
      (q : Decimal) × (divide (score d rs) (literal (length (results_of d rs)) 1) ≡ ok q)
      × (pos 0 ≤ℤ q)
      × (q ≤ℤ literal 1 1
          → Returns
              (λ x.
                (x.signal.direction ≡ d) × (x.signal.confidence ≡ q) × (x.strategy_results ≡ rs))
              g)
