-- ===== src/Tests/Lifecycles.antt =====
-- The theorems on promotion, applied.
use gptrader_mw_v.Prelude.{OnOk, is_empty, strip, refl, none, ◌≡◌, true, ◌⊎◌, [], ◌∷◌, ok}
use gptrader_mw_v.Lifecycle.{
  StrategyEvaluation, backtested, PromotionPolicy, can_promote, PromoteStrategyCommand,
  make_promote_command, StrategyRepository, execute_promotion,
}
use gptrader_mw_v.Lifecycle.Promotions.{
  Eligible, can_promote-Eligible, NotPromoted, IsPromoted, execute_promotion-Promoted,
}
use gptrader_mw_v.Lifecycle.Cycle.{RunStrategyLifecycleCommand}
use gptrader_mw_v.Lifecycle.Latest.{Accepted, Ran, execute_run-latest}
use gptrader_mw_v.Lifecycle.Definitions.{SignalGeneratorDefinition, make_generator_definition}
use gptrader_mw_v.Lifecycle.Routes.{IsValid, make_generator_definition-IsValid}
use gptrader_mw_v.Tests.Samples.{units}

abbrev evaluation : StrategyEvaluation
evaluation = record {
  evaluation_id = "e";
  target_id = "t";
  status = backtested;
  metrics = ("total_return", units 2) ∷ [];
  metadata = [];
}

abbrev policy : PromotionPolicy
policy = record {
  minimum_metrics = ("total_return", units 1) ∷ [];
  allowed_statuses = backtested ∷ [];
}

abbrev command : PromoteStrategyCommand
command = record {
  target_id = "t";
  evaluation_id = "e";
  promoted_evaluation_id = "p";
  policy = policy;
  metadata = [];
}

abbrev repository : StrategyRepository
repository = record { list_evaluations = λ t. ok (evaluation ∷ []); answer_save = λ e. ok tt }

can_promote-Eligible_example :
    (can_promote policy evaluation ≡ true → Eligible policy evaluation)
    × (Eligible policy evaluation → can_promote policy evaluation ≡ true)
can_promote-Eligible_example = can_promote-Eligible policy evaluation

execute_promotion-Promoted_example :
    NotPromoted repository command (execute_promotion repository command)
    ⊎ IsPromoted repository command (execute_promotion repository command)
execute_promotion-Promoted_example = execute_promotion-Promoted repository command

abbrev run_command : RunStrategyLifecycleCommand
run_command = record {
  target_id = "t";
  promoted_evaluation_id = "p";
  policy = policy;
  evaluation_id = none;
  metadata = [];
}

-- A later evaluation that reaches less than the policy asks.
abbrev weaker : StrategyEvaluation
weaker = record evaluation { evaluation_id = "w"; metrics = [] }

abbrev listing : StrategyRepository
listing = record { list_evaluations = λ t. ok (evaluation ∷ weaker ∷ []); answer_save = λ e. ok tt }

accepted : Accepted run_command (evaluation ∷ weaker ∷ [])
unfolding make_promote_command is_empty strip
accepted = (refl, (refl, tt))

execute_run-latest_example : Ran listing listing run_command (evaluation ∷ weaker ∷ [])
execute_run-latest_example =
    execute_run-latest listing listing run_command (evaluation ∷ weaker ∷ []) refl refl refl
      ((refl, tt), (tt, tt)) accepted

abbrev generator : SignalGeneratorDefinition
generator = record {
  generator_id = "g";
  name = "regimes";
  strategy_ids = "s" ∷ "r" ∷ [];
  regime_routes = ("trend", "r") ∷ [];
  metadata = [];
}

make_generator_definition-IsValid_example : OnOk IsValid (make_generator_definition generator)
make_generator_definition-IsValid_example = make_generator_definition-IsValid generator
