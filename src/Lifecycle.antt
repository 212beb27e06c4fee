-- ===== src/Lifecycle.antt =====
-- The lifecycle of strategies: evaluations and the promotion policy (domain/lifecycle), and the use
-- case that promotes (application/usecases/strategy_lifecycle/promote_strategy_usecase.py). A mapping
-- is the list of its items in the order of their first insertion.
pub mod Cycle
pub mod Definitions
pub mod Registration
pub mod Routes
pub mod Latest
pub mod Promotions
use gptrader_mw_v.Prelude.{
  ℕ, Bool, true, false, not, ◌&&◌, ◌||◌, String, str_eq, Option, none, some, List, [], ◌∷◌, ◌++◌,
  Result, ok, err, Error, ◌>>=◌, ◌>>◌, refuse_if, is_empty, strip, ℤ, ltb_ℤ, ◌==◌, if◌then◌else◌,
}
use gptrader_mw_v.Decimal.{Decimal}
use gptrader_mw_v.Signal.{Value, text, Metadata}

pub data StrategyLifecycleStatus : Type 0 where
  draft backtested dry_run promoted archived : StrategyLifecycleStatus

abbrev pub status_index : StrategyLifecycleStatus → ℕ
status_index draft = 0
status_index backtested = 1
status_index dry_run = 2
status_index promoted = 3
status_index archived = 4

abbrev pub Metrics : Type 0
Metrics = List (String × Decimal)

module _ {ℓ} {A : Type ℓ} where
  -- `mapping[key] = value`
  unfoldable pub put : List (String × A) → String → A → List (String × A)
  put [] key value = (key, value) ∷ []
  put ((k, v) ∷ m) key value =
      let rest = put m key value in if str_eq k key then (k, value) ∷ m else (k, v) ∷ rest

  -- `mapping.get(key)`
  unfoldable pub find : List (String × A) → String → Option A
  find [] key = none
  find ((k, v) ∷ m) key = let rest = find m key in if str_eq k key then some v else rest

  -- `{**mapping, **items}`
  unfoldable pub merge : List (String × A) → List (String × A) → List (String × A)
  unfolding put
  merge m [] = m
  merge m ((k, v) ∷ items) = merge (put m k v) items

-- `{name.strip(): value for name, value in metrics.items()}`, added to a mapping.
unfoldable pub strip_names : Metrics → Metrics → Metrics
unfolding put strip
strip_names acc [] = acc
strip_names acc ((name, value) ∷ m) = strip_names (put acc (strip name) value) m

-- `any(not name for name in metrics)`
unfoldable pub has_blank : Metrics → Bool
unfolding is_empty
has_blank [] = false
has_blank ((name, value) ∷ m) = is_empty name || has_blank m

pub record StrategyEvaluation : Type 0 where
  pub evaluation_id : String
  pub target_id : String
  pub status : StrategyLifecycleStatus
  pub metrics : Metrics
  pub metadata : Metadata

-- `StrategyEvaluation.__post_init__`
unfoldable pub make_evaluation : StrategyEvaluation → Result StrategyEvaluation
unfolding strip is_empty
make_evaluation e = do
  refuse_if (is_empty (strip e.evaluation_id)) "evaluation_id is required"
  refuse_if (is_empty (strip e.target_id)) "target_id is required"
  let metrics = strip_names [] e.metrics
  refuse_if (has_blank metrics) "metrics must not contain blank names"
  ok (record e {
    evaluation_id = strip e.evaluation_id;
    target_id = strip e.target_id;
    metrics = metrics;
  })

-- `StrategyEvaluation.metric`
unfoldable pub metric : StrategyEvaluation → String → Option Decimal
unfolding find strip
metric e name = find e.metrics (strip name)

pub record PromotionPolicy : Type 0 where
  pub minimum_metrics : Metrics
  pub allowed_statuses : List StrategyLifecycleStatus

abbrev pub is_nothing {ℓ} : {A : Type ℓ} → List A → Bool
is_nothing [] = true
is_nothing (x ∷ xs) = false

-- `PromotionPolicy.__post_init__`
unfoldable pub make_policy : PromotionPolicy → Result PromotionPolicy
make_policy p = do
  let minimum_metrics = strip_names [] p.minimum_metrics
  refuse_if (is_nothing minimum_metrics) "minimum_metrics are required"
  refuse_if (has_blank minimum_metrics) "minimum_metrics must not contain blank names"
  refuse_if (is_nothing p.allowed_statuses) "allowed_statuses are required"
  ok (record p { minimum_metrics = minimum_metrics })

unfoldable pub is_allowed : StrategyLifecycleStatus → List StrategyLifecycleStatus → Bool
is_allowed s [] = false
is_allowed s (t ∷ ts) = (status_index s == status_index t) || is_allowed s ts

-- `value is None or value < threshold`
abbrev pub falls_short : Option Decimal → Decimal → Bool
falls_short none threshold = true
falls_short (some value) threshold = ltb_ℤ value threshold

-- The loop of `can_promote`.
unfoldable pub meets_minimums : Metrics → StrategyEvaluation → Bool
meets_minimums [] e = true
meets_minimums ((name, threshold) ∷ m) e =
    let rest = meets_minimums m e in if falls_short (metric e name) threshold then false else rest

-- `PromotionPolicy.can_promote`
unfoldable pub can_promote : PromotionPolicy → StrategyEvaluation → Bool
can_promote p e =
    if not (is_allowed e.status p.allowed_statuses)
    then false
    else meets_minimums p.minimum_metrics e

pub record PromoteStrategyCommand : Type 0 where
  pub target_id : String
  pub evaluation_id : String
  pub promoted_evaluation_id : String
  pub policy : PromotionPolicy
  pub metadata : Metadata

-- `PromoteStrategyCommand.__post_init__`, where metadata that is None is the empty mapping.
unfoldable pub make_promote_command : PromoteStrategyCommand → Result PromoteStrategyCommand
make_promote_command c = do
  refuse_if (is_empty (strip c.target_id)) "target_id is required"
  refuse_if (is_empty (strip c.evaluation_id)) "evaluation_id is required"
  refuse_if (is_empty (strip c.promoted_evaluation_id)) "promoted_evaluation_id is required"
  ok (record c {
    target_id = strip c.target_id;
    evaluation_id = strip c.evaluation_id;
    promoted_evaluation_id = strip c.promoted_evaluation_id;
  })

pub record PromoteStrategyResult : Type 0 where
  pub is_promoted : Bool
  pub reason : String
  pub source_evaluation : Option StrategyEvaluation
  pub promoted_evaluation : Option StrategyEvaluation

-- The two calls of `StrategyRepositoryPort` that promotion makes.
pub record StrategyRepository : Type 0 where
  pub list_evaluations : String → Result (List StrategyEvaluation)
  pub answer_save : StrategyEvaluation → Result (Unit {0})

-- The loop of `_find_evaluation`.
unfoldable pub find_evaluation : String → List StrategyEvaluation → Option StrategyEvaluation
find_evaluation id [] = none
find_evaluation id (e ∷ es) =
    let rest = find_evaluation id es in if str_eq e.evaluation_id id then some e else rest

abbrev pub promoted_metadata : StrategyEvaluation → PromoteStrategyCommand → Metadata
promoted_metadata source c =
    put (merge (merge [] source.metadata) c.metadata) "source_evaluation_id"
      (text source.evaluation_id)

-- The promoted evaluation as it is given to its constructor.
abbrev pub promotion_of : PromoteStrategyCommand → StrategyEvaluation → StrategyEvaluation
promotion_of c source = record {
  evaluation_id = c.promoted_evaluation_id;
  target_id = source.target_id;
  status = promoted;
  metrics = source.metrics;
  metadata = promoted_metadata source c;
}

-- What is saved, and then what is returned or raised.
abbrev pub Saves : Type 0
Saves = List StrategyEvaluation

module _ (repository : StrategyRepository) where
  -- The end of `execute`, which saves.
  unfoldable pub promote :
      PromoteStrategyCommand → StrategyEvaluation → Result PromoteStrategyResult × Saves
  promote c source = elim (make_evaluation (promotion_of c source)) [
    | err e ↦ (err e, [])
    | ok evaluation ↦ (
      (do
        repository.answer_save evaluation
        ok (record {
          is_promoted = true;
          reason = "promoted";
          source_evaluation = some source;
          promoted_evaluation = some evaluation;
        })),
      evaluation ∷ [],
    )
  ]

  abbrev pub decide :
      PromoteStrategyCommand → Option StrategyEvaluation → Result PromoteStrategyResult × Saves
  decide c none = (
    ok (record {
      is_promoted = false;
      reason = "evaluation not found";
      source_evaluation = none;
      promoted_evaluation = none;
    }),
    [],
  )
  decide c (some source) =
      if not (can_promote c.policy source)
      then (
        ok (record {
          is_promoted = false;
          reason = "promotion policy rejected evaluation";
          source_evaluation = some source;
          promoted_evaluation = none;
        }),
        [],
      )
      else promote c source

  -- `PromoteStrategyUseCase.execute`
  unfoldable pub execute_promotion : PromoteStrategyCommand → Result PromoteStrategyResult × Saves
  execute_promotion c = elim (repository.list_evaluations c.target_id) [
    | err e ↦ (err e, [])
    | ok evaluations ↦ decide c (find_evaluation c.evaluation_id evaluations)
  ]
