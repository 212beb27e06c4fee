-- ===== src/Composite.antt =====
-- CompositeSignalGenerator (domain/signal_generator/composite_signal_generator.py). A strategy is its
-- `evaluate`.
pub mod Votes
pub mod Routing
use gptrader_mw_v.Prelude.{
  ℕ, suc, ◌+◌, Bool, true, false, List, [], ◌∷◌, Result, ok, err, value_error, ◌>>=◌, ℤ, pos, ltb_ℤ,
  eqb_ℤ, if◌then◌else◌,
}
use gptrader_mw_v.Decimal.{Decimal, Context, literal, plus, divide}
use gptrader_mw_v.Signal.{
  SignalDirection, long, short, wait, same_direction, make_signal, wait_signal,
}
use gptrader_mw_v.Strategy.{StrategyContext, StrategyResult, GeneratedSignal}

abbrev pub Strategy : Type 0
Strategy = StrategyContext → Result StrategyResult

-- `CompositeSignalGenerator.__post_init__`
unfoldable pub make_composite : List Strategy → Result (List Strategy)
make_composite [] = err (value_error "strategies are required")
make_composite (s ∷ ss) = ok (s ∷ ss)

-- `tuple(strategy.evaluate(context) for strategy in strategies)`
unfoldable pub evaluate_all : List Strategy → StrategyContext → Result (List StrategyResult)
evaluate_all [] c = ok []
evaluate_all (s ∷ ss) c = do r ← s c; rs ← evaluate_all ss c; ok (r ∷ rs)

-- The results of a direction.
unfoldable pub results_of : SignalDirection → List StrategyResult → List StrategyResult
results_of d [] = []
results_of d (r ∷ rs) =
    let rest = results_of d rs in if same_direction r.signal.direction d then r ∷ rest else rest

abbrev pub length : List StrategyResult → ℕ
length [] = 0
length (r ∷ rs) = suc (length rs)

module _ ⦃context : Context⦄ where
  -- `sum(confidences, start)`, from the left.
  unfoldable pub add_confidences : Decimal → List StrategyResult → Decimal
  add_confidences total [] = total
  add_confidences total (r ∷ rs) = add_confidences (plus total r.signal.confidence) rs

  -- The score of a direction after the loop of `_winning_direction`, which adds in the same order.
  abbrev pub score : SignalDirection → List StrategyResult → Decimal
  score d rs = add_confidences (pos 0) (results_of d rs)

  -- `_winning_direction`
  unfoldable pub winning_direction : List StrategyResult → SignalDirection
  winning_direction rs =
      if eqb_ℤ (score long rs) (score short rs)
      then wait
      else if ltb_ℤ (score short rs) (score long rs)
      then long
      else short

  -- `generate` once there is a winner.
  unfoldable pub generate_for : SignalDirection → List StrategyResult → Result GeneratedSignal
  generate_for wait rs = do
    signal ← wait_signal []
    ok (record { signal = signal; strategy_results = rs; metadata = [] })
  generate_for d rs = do
    confidence ← divide (score d rs) (literal (length (results_of d rs)) 1)
    signal ← make_signal d confidence [] []
    ok (record { signal = signal; strategy_results = rs; metadata = [] })

  -- `CompositeSignalGenerator.generate`
  unfoldable pub generate : List Strategy → StrategyContext → Result GeneratedSignal
  generate strategies c = do
    results ← evaluate_all strategies c
    generate_for (winning_direction results) results
