-- ===== src/Research/Items.antt =====
-- What a backtest cycle returns and saves.
use gptrader_mw_v.Prelude.{
  ◌+◌, Bool, not, ◌&&◌, is_empty, true, false, ◌≡◌, refl, inl, inr, Result-cases, OnOk,
  OnOk-Returns, Returns, none, List, [], ◌∷◌, ok, err, Error, strip, arith,
}
use gptrader_mw_v.Decimal.{Context}
use gptrader_mw_v.Lifecycle.{StrategyEvaluation, backtested, make_evaluation}
use gptrader_mw_v.Lifecycle.Definitions.{StrategyDefinition, make_strategy_definition}
use gptrader_mw_v.Research.{BacktestStrategyResult, check_evaluate_command, execute_evaluate}
use gptrader_mw_v.Research.Cycle.{
  StrategySpec, list_specs, RunStrategyBacktestCycleCommand, StrategyBacktestCycleItem, make_item,
  selected_specs, succeeded_count, failed_count,
}
use gptrader_mw_v.Research.Measures.{metrics_from_backtest}
use gptrader_mw_v.Research.Runs.{
  Save, definition, evaluation, CyclePorts, definition_from_spec, backtest_one, succeeded_item,
  evaluate_backtest, run_one, failed_item, Outcome, save_then, item_then, after_run, run_specs,
  execute_cycle,
}
use gptrader_mw_v.Research.Outcomes.{
  done, failed, evaluated, Cycle, evaluations, specs_count, Cycle-counts, definition_from_spec-made,
  make_item-made,
}

module _ ⦃context : Context⦄ (ports : CyclePorts) (command : RunStrategyBacktestCycleCommand) where
  failed_item-made :
      (spec : StrategySpec) (x : Error) (item : StrategyBacktestCycleItem)
      → failed_item ports command spec x ≡ ok item
      → (item.strategy_id ≡ strip spec.strategy_id)
        × (item.succeeded ≡ false)
        × (item.evaluation_id ≡ none)
  unfolding failed_item
  failed_item-made spec x item h = let (a, b, c) = make_item-made _ item h in (a, b, c refl)

  evaluate_backtest-made :
      (spec : StrategySpec) (r : BacktestStrategyResult) (e : StrategyEvaluation)
      → evaluate_backtest ports command spec r ≡ ok e
      → (e.status ≡ backtested) × (e.target_id ≡ strip (strip spec.strategy_id))
  unfolding evaluate_backtest check_evaluate_command execute_evaluate make_evaluation
  evaluate_backtest-made spec r e h = elim (Result-cases (metrics_from_backtest r)) [
    | inl (metrics, measured) ↦ ground arith
    | inr (x, raised) ↦ ground arith
  ]

  run_one-made :
      (spec : StrategySpec) (item : StrategyBacktestCycleItem) (e : StrategyEvaluation)
      → run_one ports command spec ≡ ok (item, e)
      → (item.strategy_id ≡ strip spec.strategy_id)
        × (item.succeeded ≡ true)
        × (e.status ≡ backtested)
        × (e.target_id ≡ strip (strip spec.strategy_id))
  unfolding run_one
  run_one-made spec item e h = elim (Result-cases (backtest_one ports command spec)) [
    | inr (x, raised) ↦ ground arith
    | inl (r, tested) ↦ elim (Result-cases (evaluate_backtest ports command spec r)) [
      | inr (x, raised) ↦ ground arith
      | inl (e', found) ↦ elim (Result-cases (succeeded_item ports command spec)) [
        | inr (x, raised) ↦ ground arith
        | inl (item', listed) ↦
            let (status, target) = evaluate_backtest-made spec r e' found in
            let (a, b, c) = make_item-made _ item' listed in ground arith
      ]
    ]
  ]

  -- What holds of the rest of the loop holds with one more strategy.
  abbrev Items : List StrategySpec → Outcome ports command → Type 0
  Items specs run = OnOk (λ items. Cycle (run_one ports command) specs items run.1) run.0

  -- Saving, which may raise, before what follows.
  save_then-Items :
      (specs : List StrategySpec) (save : Save) (rest : Outcome ports command)
      → OnOk (λ items. Cycle (run_one ports command) specs items (save ∷ rest.1)) rest.0
      → Items specs (save_then ports command save rest)
  save_then-Items specs save (r, saves) h = elim (Result-cases (ports.answer_save save)) [
    | inl (u, answered) ↦ rw answered h
    | inr (x, raised) ↦ rw raised tt
  ]

  failed-Items :
      (spec : StrategySpec) (specs : List StrategySpec) (d : StrategyDefinition)
      (item : StrategyBacktestCycleItem) (x : Error) (rest : Outcome ports command)
      → run_one ports command spec ≡ err x
      → d.strategy_id ≡ strip spec.strategy_id
      → (item.strategy_id ≡ strip spec.strategy_id)
        × (item.succeeded ≡ false)
        × (item.evaluation_id ≡ none)
      → Items specs rest
      → OnOk
          (λ items.
            Cycle
              (run_one ports command)
              (spec ∷ specs)
              items
              (definition d ∷ (item_then ports command item rest).1))
          (item_then ports command item rest).0
  failed-Items spec specs d item x (ok items, saves) r h (a, b, c) k =
      failed spec d item x r h a b c k
  failed-Items spec specs d item x (err y, saves) r h k l = tt

  evaluated-Items :
      (spec : StrategySpec) (specs : List StrategySpec) (d : StrategyDefinition)
      (item : StrategyBacktestCycleItem) (e : StrategyEvaluation) (rest : Outcome ports command)
      → run_one ports command spec ≡ ok (item, e)
      → d.strategy_id ≡ strip spec.strategy_id
      → (item.strategy_id ≡ strip spec.strategy_id)
        × (item.succeeded ≡ true)
        × (e.status ≡ backtested)
        × (e.target_id ≡ strip (strip spec.strategy_id))
      → Items specs rest
      → let run = save_then ports command (evaluation e) (item_then ports command item rest) in
        OnOk
          (λ items. Cycle (run_one ports command) (spec ∷ specs) items (definition d ∷ run.1))
          run.0
  evaluated-Items spec specs d item e (ok items, saves) r h (a, b, s, t) k =
      elim (Result-cases (ports.answer_save (evaluation e))) [
        | inl (u, answered) ↦ rw answered (evaluated spec d item e r h a b s t k)
        | inr (x, raised) ↦ rw raised tt
      ]
  evaluated-Items spec specs d item e (err y, saves) r h k l =
      elim (Result-cases (ports.answer_save (evaluation e))) [
        | inl (u, answered) ↦ rw answered tt
        | inr (x, raised) ↦ rw raised tt
      ]

  after_run-Items :
      (spec : StrategySpec) (specs : List StrategySpec) (d : StrategyDefinition)
      (rest : Outcome ports command)
      → d.strategy_id ≡ strip spec.strategy_id
      → Items specs rest
      → let run = after_run ports command spec (run_one ports command spec) rest in
        OnOk
          (λ items. Cycle (run_one ports command) (spec ∷ specs) items (definition d ∷ run.1))
          run.0
  after_run-Items spec specs d rest h k = elim (Result-cases (run_one ports command spec)) [
    | inl ((item, e), ran) ↦
        rw ran (evaluated-Items spec specs d item e rest ran h (run_one-made spec item e ran) k)
    | inr (x, raised) ↦ elim (Result-cases (failed_item ports command spec x)) [
      | inl (item, listed) ↦ rw raised (
          rw listed (
            failed-Items spec specs d item x rest raised h (failed_item-made spec x item listed) k))
      | inr (y, refused) ↦ rw raised (rw refused tt)
    ]
  ]

  run_specs-Items : (specs : List StrategySpec) → Items specs (run_specs ports command specs)
  unfolding run_specs
  run_specs-Items [] = done
  run_specs-Items (spec ∷ specs) = elim (Result-cases (definition_from_spec spec)) [
    | inr (x, raised) ↦ rw raised tt
    | inl (d, defined) ↦ rw defined (
        save_then-Items (spec ∷ specs) (definition d)
          (after_run ports command spec (run_one ports command spec)
            (run_specs ports command specs))
          (after_run-Items spec specs d (run_specs ports command specs)
            (definition_from_spec-made spec d defined) (run_specs-Items specs)))
  ]

  Items-counts :
      (specs : List StrategySpec) (run : Outcome ports command)
      → Items specs run
      → OnOk
          (λ items.
            Cycle (run_one ports command) specs items run.1
            × (succeeded_count items ≡ evaluations run.1)
            × (succeeded_count items + failed_count items ≡ specs_count specs))
          run.0
  Items-counts specs (ok items, saves) c = let (k, l) = Cycle-counts c in (c, k, l)
  Items-counts specs (err e, saves) c = tt

  -- Strategies that have what a definition needs, as `StrategySpec` sees to it.
  abbrev pub is_named : StrategySpec → Bool
  is_named spec =
      not (is_empty (strip spec.strategy_id))
      && not (is_empty (strip spec.name))
      && not (is_empty (strip spec.implementation))
      && not (is_empty (strip spec.version))

  unfoldable pub are_named : List StrategySpec → Bool
  are_named [] = true
  are_named (spec ∷ specs) = is_named spec && are_named specs

  definition_from_spec-returns :
      (spec : StrategySpec)
      → is_named spec ≡ true
      → (d : StrategyDefinition) × (definition_from_spec spec ≡ ok d)
  unfolding definition_from_spec make_strategy_definition
  definition_from_spec-returns spec named = elim (Result-cases (definition_from_spec spec)) [
    | inl made ↦ made
    | inr (e, refused) ↦ absurd (ground arith)
  ]

  failed_item-returns :
      (spec : StrategySpec) (x : Error)
      → is_named spec ≡ true
      → (item : StrategyBacktestCycleItem) × (failed_item ports command spec x ≡ ok item)
  unfolding failed_item make_item
  failed_item-returns spec x named = elim (Result-cases (failed_item ports command spec x)) [
    | inl made ↦ made
    | inr (e, refused) ↦ absurd (ground arith)
  ]

  -- Whatever the run of a strategy comes to, the others follow it.
  after_run-returns :
      (spec : StrategySpec) (rest : Outcome ports command) (items : List StrategyBacktestCycleItem)
      → ((save : Save) → ports.answer_save save ≡ ok tt)
      → is_named spec ≡ true
      → rest.0 ≡ ok items
      → (all : List StrategyBacktestCycleItem) × ((after_run ports command spec
            (run_one ports command spec)
            rest).0
          ≡ ok all)
  after_run-returns spec (r, saves) items saved named h =
      elim (Result-cases (run_one ports command spec)) [
        | inl ((item, e), ran) ↦ (item ∷ items, rw h (rw ran (rw (saved (evaluation e)) refl)))
        | inr (x, raised) ↦
            let (item, listed) = failed_item-returns spec x named in
            (item ∷ items, rw h (rw raised (rw listed refl)))
      ]

  run_specs-returns :
      (specs : List StrategySpec)
      → ((save : Save) → ports.answer_save save ≡ ok tt)
      → are_named specs ≡ true
      → (items : List StrategyBacktestCycleItem) × ((run_specs ports command specs).0 ≡ ok items)
  unfolding run_specs are_named
  run_specs-returns [] saved named = ([], refl)
  run_specs-returns (spec ∷ specs) saved named =
      let (d, defined) = definition_from_spec-returns spec (ground arith) in
      let (items, rest) = run_specs-returns specs saved (ground arith) in
      let (all, run) =
        after_run-returns spec (run_specs ports command specs) items saved (ground arith) rest in
      (all, rw defined (rw (saved (definition d)) run))

  -- When the repository answers every save and each selected strategy has an id, a name, an
  -- implementation and a version, as their constructor sees to it, a backtest cycle returns, whichever
  -- runs of strategies raise. It has one item for each selected strategy of the catalog, in order: a
  -- failed one exactly where the run raised, whose definition alone was saved, and one that succeeded
  -- where it returned, whose evaluation with status backtested was saved after its definition. As many
  -- evaluations were saved as items succeeded, and all others failed.
  pub execute_cycle-Cycle :
      let run = execute_cycle ports command in
      let specs = selected_specs (list_specs ports.catalog) command in
      ((save : Save) → ports.answer_save save ≡ ok tt)
      → are_named specs ≡ true
      → Returns
          (λ items.
            Cycle (run_one ports command) specs items run.1
            × (succeeded_count items ≡ evaluations run.1)
            × (succeeded_count items + failed_count items ≡ specs_count specs))
          run.0
  unfolding execute_cycle
  execute_cycle-Cycle saved named =
      let specs = selected_specs (list_specs ports.catalog) command in
      let (items, returned) = run_specs-returns specs saved named in
      OnOk-Returns _ (run_specs ports command specs).0 items returned
        (Items-counts specs (run_specs ports command specs) (run_specs-Items specs))
