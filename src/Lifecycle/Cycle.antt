-- ===== src/Lifecycle/Cycle.antt =====
-- RunStrategyLifecycleUseCase (application/usecases/strategy_lifecycle/run_strategy_lifecycle_usecase.py).
use gptrader_mw_v.Prelude.{
  Bool, String, Option, none, some, List, [], ◌∷◌, Result, ok, err, ◌>>=◌, ◌>>◌, refuse_if,
  is_empty, strip, if◌then◌else◌,
}
use gptrader_mw_v.Signal.{Metadata}
use gptrader_mw_v.Lifecycle.{
  StrategyEvaluation, PromotionPolicy, can_promote, PromoteStrategyCommand, make_promote_command,
  PromoteStrategyResult, StrategyRepository, Saves, execute_promotion,
}

pub record RunStrategyLifecycleCommand : Type 0 where
  pub target_id : String
  pub promoted_evaluation_id : String
  pub policy : PromotionPolicy
  pub evaluation_id : Option String
  pub metadata : Metadata

-- `self.evaluation_id.strip() if self.evaluation_id else None`
abbrev pub strip_given : Option String → Option String
strip_given none = none
strip_given (some id) = if is_empty id then none else some (strip id)

abbrev pub is_blank_id : Option String → Bool
is_blank_id none = Bool.false
is_blank_id (some id) = is_empty id

-- `RunStrategyLifecycleCommand.__post_init__`, where metadata that is None is the empty mapping.
unfoldable pub make_run_command : RunStrategyLifecycleCommand → Result RunStrategyLifecycleCommand
make_run_command c = do
  refuse_if (is_empty (strip c.target_id)) "target_id is required"
  refuse_if (is_empty (strip c.promoted_evaluation_id)) "promoted_evaluation_id is required"
  refuse_if (is_blank_id (strip_given c.evaluation_id)) "evaluation_id is required"
  ok (record c {
    target_id = strip c.target_id;
    promoted_evaluation_id = strip c.promoted_evaluation_id;
    evaluation_id = strip_given c.evaluation_id;
  })

pub record RunStrategyLifecycleResult : Type 0 where
  pub promotion : PromoteStrategyResult

abbrev pub or_else : Option String → Option String → Option String
or_else (some id) other = some id
or_else none other = other

-- The loop of `_latest_promotable_evaluation_id` over `reversed(evaluations)`: what comes later is
-- tried first.
unfoldable pub latest_promotable : PromotionPolicy → List StrategyEvaluation → Option String
latest_promotable p [] = none
latest_promotable p (e ∷ es) =
    or_else (latest_promotable p es) (if can_promote p e then some e.evaluation_id else none)

-- The command that the promotion is given.
abbrev pub promotion_command : RunStrategyLifecycleCommand → String → PromoteStrategyCommand
promotion_command c id = record {
  target_id = c.target_id;
  evaluation_id = id;
  promoted_evaluation_id = c.promoted_evaluation_id;
  policy = c.policy;
  metadata = c.metadata;
}

abbrev pub wrap : Result PromoteStrategyResult × Saves → Result RunStrategyLifecycleResult × Saves
wrap (result, saves) = ((do promotion ← result; ok (record { promotion = promotion })), saves)

-- The repository as it answers the first listing, and as it answers the promotion.
module _ (repository later : StrategyRepository) where
  -- `_latest_promotable_evaluation_id`
  unfoldable pub latest_promotable_evaluation_id :
      RunStrategyLifecycleCommand → Result (Option String)
  latest_promotable_evaluation_id c = do
    evaluations ← repository.list_evaluations c.target_id
    ok (latest_promotable c.policy evaluations)

  -- `command.evaluation_id or self._latest_promotable_evaluation_id(...)`
  abbrev pub choose : RunStrategyLifecycleCommand → Option String → Result (Option String)
  choose c none = latest_promotable_evaluation_id c
  choose c (some id) = if is_empty id then latest_promotable_evaluation_id c else ok (some id)

  abbrev pub promote_chosen :
      RunStrategyLifecycleCommand → Option String → Result PromoteStrategyResult × Saves
  promote_chosen c none = (
    ok (record {
      is_promoted = Bool.false;
      reason = "evaluation not found";
      source_evaluation = none;
      promoted_evaluation = none;
    }),
    [],
  )
  promote_chosen c (some id) = elim (make_promote_command (promotion_command c id)) [
    | err e ↦ (err e, [])
    | ok command ↦ execute_promotion later command
  ]

  -- `RunStrategyLifecycleUseCase.execute`
  unfoldable pub execute_run :
      RunStrategyLifecycleCommand → Result RunStrategyLifecycleResult × Saves
  execute_run c = elim (choose c c.evaluation_id) [
    | err e ↦ (err e, [])
    | ok id ↦ wrap (promote_chosen c id)
  ]
