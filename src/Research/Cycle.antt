-- ===== src/Research/Cycle.antt =====
-- RunStrategyBacktestCycleUseCase
-- (application/usecases/strategy_lifecycle/run_strategy_backtest_cycle_usecase.py, with its part of dto.py),
-- StrategySpec and the catalog (domain/strategy/strategy_spec.py, strategy_catalog.py). The indicator
-- factory is an argument. Texts are lowered by an argument, as is what an exception says.
use gptrader_mw_v.Prelude.{
  ℕ, suc, Bool, false, not, ◌||◌, String, str_eq, Option, none, some, List, [], ◌∷◌, Result, ok,
  err, key_error, ◌>>=◌, ◌>>◌, refuse_if, is_empty, strip, is_in, all_distinct, ℤ, pos, leb_ℤ,
  if◌then◌else◌,
}
use Prim.Native.String
use gptrader_mw_v.Market.{Datetime, Symbol, Timeframe}
use gptrader_mw_v.Signal.{Metadata}
use gptrader_mw_v.Strategy.{StrategyContext, StrategyResult}
use gptrader_mw_v.Backtest.{is_half_open, is_reversed}

pub record StrategySpec : Type 0 where
  pub strategy_id : String
  pub name : String
  pub implementation : String
  pub version : String
  pub symbol : Symbol
  pub timeframe : Timeframe
  pub lookback_candle_limit : ℤ
  pub parameters : Metadata
  pub metadata : Metadata
  pub indicator_keys : List String

unfoldable pub map_texts : (String → String) → List String → List String
map_texts f [] = []
map_texts f (s ∷ ss) = f s ∷ map_texts f ss

unfoldable pub any_empty : List String → Bool
any_empty [] = false
any_empty (s ∷ ss) = is_empty s || any_empty ss

-- `StrategySpec.__post_init__`, where `normalize` is `strip().lower().replace(" ", "_")`.
unfoldable pub make_spec : (String → String) → StrategySpec → Result StrategySpec
make_spec normalize s = do
  refuse_if (is_empty (strip s.strategy_id)) "strategy_id is required"
  refuse_if (is_empty (strip s.name)) "name is required"
  refuse_if (is_empty (strip s.implementation)) "implementation is required"
  refuse_if (is_empty (strip s.version)) "version is required"
  refuse_if (leb_ℤ s.lookback_candle_limit (pos 0)) "lookback_candle_limit must be positive"
  let indicator_keys = map_texts normalize s.indicator_keys
  refuse_if (any_empty indicator_keys) "indicator_keys are required"
  refuse_if (not (all_distinct indicator_keys)) "indicator_keys must be unique"
  ok (record s {
    strategy_id = strip s.strategy_id;
    name = strip s.name;
    implementation = strip s.implementation;
    version = strip s.version;
    indicator_keys = indicator_keys;
  })

-- A strategy is its `evaluate`, and a factory makes one from its parameters.
abbrev pub Strategy : Type 0
Strategy = StrategyContext → Result StrategyResult

-- `StaticStrategyCatalog`
abbrev pub Catalog : Type 0
Catalog = List (StrategySpec × (Metadata → Result Strategy))

unfoldable pub list_specs : Catalog → List StrategySpec
list_specs [] = []
list_specs ((spec, factory) ∷ entries) = spec ∷ list_specs entries

unfoldable pub create_strategy : Catalog → StrategySpec → Result Strategy
create_strategy [] spec = err (key_error (String.◌++◌ "unknown strategy spec: " spec.strategy_id))
create_strategy ((candidate, factory) ∷ entries) spec =
    let rest = create_strategy entries spec in
    if str_eq candidate.strategy_id spec.strategy_id then factory spec.parameters else rest

pub record RunStrategyBacktestCycleCommand : Type 0 where
  pub cycle_id : String
  pub metadata : Metadata
  pub enabled_strategy_ids : List String
  pub disabled_strategy_ids : List String
  pub start_at : Option Datetime
  pub end_at : Option Datetime

-- The texts that are not blank, stripped.
unfoldable pub strip_all : List String → List String
strip_all [] = []
strip_all (s ∷ ss) = let rest = strip_all ss in if is_empty (strip s) then rest else strip s ∷ rest

-- `_normalize_ids`
unfoldable pub normalize_ids : List String → Result (List String)
normalize_ids values = do
  refuse_if (not (all_distinct (strip_all values))) "strategy ids must be unique"
  ok (strip_all values)

-- `RunStrategyBacktestCycleCommand.__post_init__`
unfoldable pub make_cycle_command :
    RunStrategyBacktestCycleCommand → Result RunStrategyBacktestCycleCommand
make_cycle_command c = do
  refuse_if (is_empty (strip c.cycle_id)) "cycle_id is required"
  refuse_if (is_half_open c.start_at c.end_at) "start_at and end_at must be provided together"
  refuse_if (is_reversed c.start_at c.end_at) "end_at must be after start_at"
  enabled ← normalize_ids c.enabled_strategy_ids
  disabled ← normalize_ids c.disabled_strategy_ids
  ok (record c {
    cycle_id = strip c.cycle_id;
    enabled_strategy_ids = enabled;
    disabled_strategy_ids = disabled;
  })

pub record StrategyBacktestCycleItem : Type 0 where
  pub strategy_id : String
  pub evaluation_id : Option String
  pub succeeded : Bool
  pub error_type : Option String
  pub error_message : Option String

-- `value.strip() if value else None`
abbrev pub strip_given : Option String → Option String
strip_given none = none
strip_given (some s) = if is_empty s then none else some (strip s)

abbrev pub is_given_empty : Option String → Bool
is_given_empty none = false
is_given_empty (some s) = is_empty s

-- `StrategyBacktestCycleItem.__post_init__`
unfoldable pub make_item : StrategyBacktestCycleItem → Result StrategyBacktestCycleItem
make_item item = do
  refuse_if (is_empty (strip item.strategy_id)) "strategy_id is required"
  refuse_if (is_given_empty (strip_given item.evaluation_id)) "evaluation_id is required"
  ok (record item {
    strategy_id = strip item.strategy_id;
    evaluation_id = strip_given item.evaluation_id;
    error_type = strip_given item.error_type;
    error_message = strip_given item.error_message;
  })

-- `succeeded_count` and `failed_count`
unfoldable pub succeeded_count : List StrategyBacktestCycleItem → ℕ
succeeded_count [] = 0
succeeded_count (item ∷ items) =
    let rest = succeeded_count items in if item.succeeded then suc rest else rest

unfoldable pub failed_count : List StrategyBacktestCycleItem → ℕ
failed_count [] = 0
failed_count (item ∷ items) =
    let rest = failed_count items in if item.succeeded then rest else suc rest

-- `if keep is given: specs = those that it keeps`
unfoldable pub keep_specs : (String → Bool) → List StrategySpec → List StrategySpec
keep_specs test [] = []
keep_specs test (spec ∷ specs) =
    let rest = keep_specs test specs in if test spec.strategy_id then spec ∷ rest else rest

abbrev pub enabled_specs : List String → List StrategySpec → List StrategySpec
enabled_specs [] specs = specs
enabled_specs (id ∷ ids) specs = keep_specs (λ s. is_in s (id ∷ ids)) specs

abbrev pub without_disabled : List String → List StrategySpec → List StrategySpec
without_disabled [] specs = specs
without_disabled (id ∷ ids) specs = keep_specs (λ s. not (is_in s (id ∷ ids))) specs

-- `_selected_specs`
unfoldable pub selected_specs :
    List StrategySpec → RunStrategyBacktestCycleCommand → List StrategySpec
unfolding keep_specs is_in
selected_specs specs command =
    without_disabled command.disabled_strategy_ids
      (enabled_specs command.enabled_strategy_ids specs)
