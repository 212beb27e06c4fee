-- ===== src/Research/Outcomes.antt =====
-- What a backtest cycle makes of its strategies, item by item.
use gptrader_mw_v.Prelude.{
  ℕ, suc, ◌+◌, true, false, ◌≡◌, refl, none, List, [], ◌∷◌, Result, Error, err, ok, strip, arith,
}
use gptrader_mw_v.Lifecycle.{StrategyEvaluation, backtested}
use gptrader_mw_v.Lifecycle.Definitions.{StrategyDefinition, make_strategy_definition}
use gptrader_mw_v.Research.Cycle.{
  StrategySpec, StrategyBacktestCycleItem, make_item, succeeded_count, failed_count,
}
use gptrader_mw_v.Research.Runs.{Save, definition, evaluation, definition_from_spec}

-- What the run of each strategy came to.
abbrev pub Run : Type 0
Run = StrategySpec → Result (StrategyBacktestCycleItem × StrategyEvaluation)

-- One item for each strategy, in order: a strategy whose run raised has a failed item, and only its
-- definition is saved; a strategy whose run returned has the item and the evaluation of its run, and the
-- evaluation is saved after its definition.
pub data Cycle (ran : Run)
    : List StrategySpec → List StrategyBacktestCycleItem → List Save → Type 0 where
  done : Cycle ran [] [] []
  failed :
      (spec : StrategySpec) (d : StrategyDefinition) (item : StrategyBacktestCycleItem) (x : Error)
      {specs : List StrategySpec} {items : List StrategyBacktestCycleItem} {saves : List Save}
      → ran spec ≡ err x
      → d.strategy_id ≡ strip spec.strategy_id
      → item.strategy_id ≡ strip spec.strategy_id
      → item.succeeded ≡ false
      → item.evaluation_id ≡ none
      → Cycle ran specs items saves
      → Cycle ran (spec ∷ specs) (item ∷ items) (definition d ∷ saves)
  evaluated :
      (spec : StrategySpec) (d : StrategyDefinition) (item : StrategyBacktestCycleItem)
      (e : StrategyEvaluation) {specs : List StrategySpec} {items : List StrategyBacktestCycleItem}
      {saves : List Save}
      → ran spec ≡ ok (item, e)
      → d.strategy_id ≡ strip spec.strategy_id
      → item.strategy_id ≡ strip spec.strategy_id
      → item.succeeded ≡ true
      → e.status ≡ backtested
      → e.target_id ≡ strip (strip spec.strategy_id)
      → Cycle ran specs items saves
      → Cycle ran (spec ∷ specs) (item ∷ items) (definition d ∷ evaluation e ∷ saves)

-- The number of evaluations among what is saved.
abbrev pub evaluations : List Save → ℕ
evaluations [] = 0
evaluations (definition d ∷ saves) = evaluations saves
evaluations (evaluation e ∷ saves) = suc (evaluations saves)

abbrev pub specs_count : List StrategySpec → ℕ
specs_count [] = 0
specs_count (s ∷ ss) = suc (specs_count ss)

pub Cycle-counts :
    {ran : Run} {specs : List StrategySpec} {items : List StrategyBacktestCycleItem}
    {saves : List Save}
    → Cycle ran specs items saves
    → (succeeded_count items ≡ evaluations saves)
      × (succeeded_count items + failed_count items ≡ specs_count specs)
unfolding succeeded_count failed_count
Cycle-counts done = (refl, refl)
Cycle-counts (failed spec d item x {items = items} r a b s n c) =
    let (k, l) = Cycle-counts c in rw s (k, omega arith)
Cycle-counts (evaluated spec d item e {items = items} r a b s t u c) =
    let (k, l) = Cycle-counts c in rw s (omega arith, omega arith)

pub definition_from_spec-made :
    (spec : StrategySpec) (d : StrategyDefinition)
    → definition_from_spec spec ≡ ok d
    → d.strategy_id ≡ strip spec.strategy_id
unfolding definition_from_spec make_strategy_definition
definition_from_spec-made spec d h = ground arith

pub make_item-made :
    (i : StrategyBacktestCycleItem) (item : StrategyBacktestCycleItem)
    → make_item i ≡ ok item
    → (item.strategy_id ≡ strip i.strategy_id)
      × (item.succeeded ≡ i.succeeded)
      × (i.evaluation_id ≡ none → item.evaluation_id ≡ none)
unfolding make_item
make_item-made i item h = (ground arith, ground arith, λ n. ground arith)
