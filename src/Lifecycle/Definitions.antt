-- ===== src/Lifecycle/Definitions.antt =====
-- StrategyDefinition and SignalGeneratorDefinition (domain/lifecycle/strategy_definition.py and
-- signal_generator_definition.py).
use gptrader_mw_v.Prelude.{
  Bool, false, ◌||◌, String, str_eq, List, [], ◌∷◌, Result, ok, ◌>>◌, refuse_if, is_empty, strip,
  not,
}
use gptrader_mw_v.Signal.{Metadata}
use gptrader_mw_v.Lifecycle.{put, is_nothing}

pub record StrategyDefinition : Type 0 where
  pub strategy_id : String
  pub name : String
  pub implementation : String
  pub version : String
  pub parameters : Metadata
  pub metadata : Metadata

-- `StrategyDefinition.__post_init__`
unfoldable pub make_strategy_definition : StrategyDefinition → Result StrategyDefinition
make_strategy_definition d = do
  refuse_if (is_empty (strip d.strategy_id)) "strategy_id is required"
  refuse_if (is_empty (strip d.name)) "name is required"
  refuse_if (is_empty (strip d.implementation)) "implementation is required"
  refuse_if (is_empty (strip d.version)) "version is required"
  ok (record d {
    strategy_id = strip d.strategy_id;
    name = strip d.name;
    implementation = strip d.implementation;
    version = strip d.version;
  })

pub record SignalGeneratorDefinition : Type 0 where
  pub generator_id : String
  pub name : String
  pub strategy_ids : List String
  pub regime_routes : List (String × String)
  pub metadata : Metadata

-- `tuple(strategy_id.strip() for strategy_id in strategy_ids)`
unfoldable pub strip_ids : List String → List String
strip_ids [] = []
strip_ids (id ∷ ids) = strip id ∷ strip_ids ids

-- `any(not strategy_id for strategy_id in strategy_ids)`
unfoldable pub has_blank_id : List String → Bool
has_blank_id [] = false
has_blank_id (id ∷ ids) = is_empty id || has_blank_id ids

-- `{regime.strip(): strategy_id.strip() for ...}`, added to a mapping.
unfoldable pub strip_routes :
    List (String × String) → List (String × String) → List (String × String)
strip_routes acc [] = acc
strip_routes acc ((regime, id) ∷ routes) = strip_routes (put acc (strip regime) (strip id)) routes

-- `any(not regime or not strategy_id for ...)`
unfoldable pub has_blank_route : List (String × String) → Bool
has_blank_route [] = false
has_blank_route ((regime, id) ∷ routes) = (is_empty regime || is_empty id) || has_blank_route routes

unfoldable pub is_known : List String → String → Bool
is_known [] id = false
is_known (k ∷ ks) id = str_eq k id || is_known ks id

-- Whether `set(regime_routes.values()) - set(strategy_ids)` has an element.
unfoldable pub has_unknown : List String → List (String × String) → Bool
has_unknown ids [] = false
has_unknown ids ((regime, id) ∷ routes) = not (is_known ids id) || has_unknown ids routes

-- `SignalGeneratorDefinition.__post_init__`
unfoldable pub make_generator_definition :
    SignalGeneratorDefinition → Result SignalGeneratorDefinition
make_generator_definition d = do
  refuse_if (is_empty (strip d.generator_id)) "generator_id is required"
  refuse_if (is_empty (strip d.name)) "name is required"
  let strategy_ids = strip_ids d.strategy_ids
  refuse_if (is_nothing strategy_ids || has_blank_id strategy_ids) "strategy_ids are required"
  let regime_routes = strip_routes [] d.regime_routes
  refuse_if (has_blank_route regime_routes) "regime_routes must not contain blank values"
  refuse_if (has_unknown strategy_ids regime_routes)
      "regime_routes must reference known strategy_ids"
  ok (record d {
    generator_id = strip d.generator_id;
    name = strip d.name;
    strategy_ids = strategy_ids;
    regime_routes = regime_routes;
  })
