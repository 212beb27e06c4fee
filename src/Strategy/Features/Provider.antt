-- ===== src/Strategy/Features/Provider.antt =====
-- InMemoryMarketFeatureProvider
-- (infrastructure/market_feature/in_memory_market_feature_provider.py). A timedelta is a number of
-- microseconds. The texts that only stand in messages are arguments.
use gptrader_mw_v.Prelude.{
  Bool, false, ◌&&◌, ◌||◌, not, String, Option, none, some, List, [], ◌∷◌, ◌++◌, Result, ok, ◌>>=◌,
  ◌>>◌, refuse_if, ℤ, pos, ltb_ℤ, leb, ◌==◌, if◌then◌else◌, all_distinct,
}
use Prim.Native.String
use gptrader_mw_v.Market.{Symbol, Timeframe, symbol_eq, timeframe_eq}
use gptrader_mw_v.Strategy.{MarketFeatureSet}
use gptrader_mw_v.Strategy.Features.{normalize_source, normalize_all, sources_of, intersects}

-- The rows of one key of `_rows_by_key`.
pub record KeyRows : Type 0 where
  pub symbol : Symbol
  pub timeframe : Timeframe
  pub rows : List MarketFeatureSet

pub record InMemoryMarketFeatureProvider : Type 0 where
  pub max_staleness : Option ℤ
  pub max_staleness_by_source : List (String × Option ℤ)
  pub unavailable_sources : List String
  pub rows_by_key : List KeyRows

-- `_validate_staleness`
unfoldable pub validate_staleness : Option ℤ → String → Result (Option ℤ)
validate_staleness none field_name = ok none
validate_staleness (some value) field_name = do
  refuse_if (ltb_ℤ value (pos 0)) (String.◌++◌ field_name " must not be negative")
  ok (some value)

-- `_normalize_sources`
unfoldable pub normalize_sources : List String → Result (List String)
unfolding normalize_all
normalize_sources sources = do
  normalized ← normalize_all sources
  refuse_if (not (all_distinct normalized)) "duplicate unavailable source"
  ok normalized

-- The entries for `max_staleness_by_source`; in the dict the last one of a key stands.
unfoldable pub validate_by_source :
    (String → String) → List (String × Option ℤ) → Result (List (String × Option ℤ))
unfolding normalize_source validate_staleness
validate_by_source field_name [] = ok []
validate_by_source field_name ((source, staleness) ∷ rest) = do
  normalized ← normalize_source source
  validated ← validate_staleness staleness (field_name source)
  others ← validate_by_source field_name rest
  ok ((normalized, validated) ∷ others)

abbrev pub of_key : Symbol → Timeframe → MarketFeatureSet → Bool
of_key symbol timeframe f = symbol_eq f.symbol symbol && timeframe_eq f.timeframe timeframe

abbrev pub is_key : KeyRows → Symbol → Timeframe → Bool
is_key k symbol timeframe = symbol_eq k.symbol symbol && timeframe_eq k.timeframe timeframe

-- `rows_by_key.setdefault(key, []).append(row)`
unfoldable pub add_row : MarketFeatureSet → List KeyRows → List KeyRows
add_row f [] = record { symbol = f.symbol; timeframe = f.timeframe; rows = f ∷ [] } ∷ []
add_row f (k ∷ ks) =
    let rest = add_row f ks in
    if is_key k f.symbol f.timeframe then record k { rows = k.rows ++ f ∷ [] } ∷ ks else k ∷ rest

-- `identity in seen`, for the rows that were added before.
unfoldable pub is_seen : MarketFeatureSet → List MarketFeatureSet → Bool
is_seen f [] = false
is_seen f (g ∷ gs) = of_key f.symbol f.timeframe g && g.measured_at == f.measured_at || is_seen f gs

-- The loop of `__init__` over the rows, with those that it has seen.
unfoldable pub add_rows :
    (List String → String)
    → List String
    → List MarketFeatureSet
    → List MarketFeatureSet
    → List KeyRows
    → Result (List KeyRows)
unfolding sources_of intersects is_seen add_row
add_rows conflict unavailable seen [] ks = ok ks
add_rows conflict unavailable seen (f ∷ fs) ks = do
  refuse_if (intersects (sources_of f.values) unavailable) (conflict (sources_of f.values))
  refuse_if (is_seen f seen) "duplicate market feature timestamp"
  add_rows conflict unavailable (f ∷ seen) fs (add_row f ks)

-- `rows.sort(key=...)`, which is stable.
unfoldable pub insert_row : MarketFeatureSet → List MarketFeatureSet → List MarketFeatureSet
insert_row f [] = f ∷ []
insert_row f (g ∷ gs) =
    let rest = insert_row f gs in if leb f.measured_at g.measured_at then f ∷ g ∷ gs else g ∷ rest

unfoldable pub sort_rows : List MarketFeatureSet → List MarketFeatureSet
unfolding insert_row
sort_rows [] = []
sort_rows (f ∷ fs) = insert_row f (sort_rows fs)

unfoldable pub sort_keys : List KeyRows → List KeyRows
unfolding sort_rows
sort_keys [] = []
sort_keys (k ∷ ks) = record k { rows = sort_rows k.rows } ∷ sort_keys ks

-- `__init__`, where `conflict` gives the message for the sources of a row of which some are not
-- available, and `field_name` the name of a limit.
unfoldable pub make_provider :
    (List String → String)
    → (String → String)
    → List MarketFeatureSet
    → Option ℤ
    → List (String × Option ℤ)
    → List String
    → Result InMemoryMarketFeatureProvider
unfolding validate_staleness validate_by_source normalize_sources add_rows sort_keys
make_provider conflict field_name feature_sets max_staleness by_source unavailable = do
  validated ← validate_staleness max_staleness "max_staleness"
  limits ← validate_by_source field_name by_source
  sources ← normalize_sources unavailable
  keys ← add_rows conflict sources [] feature_sets []
  ok (record {
    max_staleness = validated;
    max_staleness_by_source = limits;
    unavailable_sources = sources;
    rows_by_key = sort_keys keys;
  })
