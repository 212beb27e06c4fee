-- ===== src/Lifecycle/Registration.antt =====
-- RegisterStrategyUseCase (application/usecases/strategy_lifecycle/register_strategy_usecase.py, dto.py).
use gptrader_mw_v.Prelude.{
  ◌&&◌, Option, none, some, List, [], ◌∷◌, Result, ok, err, ◌>>◌, refuse_if, is_none,
}
use gptrader_mw_v.Lifecycle.Definitions.{StrategyDefinition, SignalGeneratorDefinition}

pub record RegisterStrategyCommand : Type 0 where
  pub strategy_definition : Option StrategyDefinition
  pub signal_generator_definition : Option SignalGeneratorDefinition

-- `RegisterStrategyCommand.__post_init__`
unfoldable pub check_register_command : RegisterStrategyCommand → Result RegisterStrategyCommand
check_register_command c = do
  refuse_if (is_none c.strategy_definition && is_none c.signal_generator_definition)
      "definition is required"
  ok c

pub record RegisterStrategyResult : Type 0 where
  pub strategy_definition : Option StrategyDefinition
  pub signal_generator_definition : Option SignalGeneratorDefinition

pub data Registration : Type 0 where
  strategy : StrategyDefinition → Registration
  generator : SignalGeneratorDefinition → Registration

-- What is to be saved, in order.
abbrev pub generators_of : Option SignalGeneratorDefinition → List Registration
generators_of none = []
generators_of (some g) = generator g ∷ []

abbrev pub registrations :
    Option StrategyDefinition → Option SignalGeneratorDefinition → List Registration
registrations none g = generators_of g
registrations (some s) g = strategy s ∷ generators_of g

module _ (answer_save : Registration → Result (Unit {0})) where
  -- The calls of the repository up to the first that raises, and the answer of the last.
  unfoldable pub save_all : List Registration → Result (Unit {0}) × List Registration
  save_all [] = (ok tt, [])
  save_all (r ∷ rs) =
      let (rest, saves) = save_all rs in
      elim (answer_save r) [ ok u ↦ (rest, r ∷ saves) | err e ↦ (err e, r ∷ []) ]

  -- `RegisterStrategyUseCase.execute`
  unfoldable pub execute_register :
      RegisterStrategyCommand → Result RegisterStrategyResult × List Registration
  unfolding save_all
  execute_register c =
      let (answer, saves) =
        save_all (registrations c.strategy_definition c.signal_generator_definition) in
      (
        (do
          answer
          ok (record {
            strategy_definition = c.strategy_definition;
            signal_generator_definition = c.signal_generator_definition;
          })),
        saves,
      )
