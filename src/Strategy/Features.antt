-- ===== src/Strategy/Features.antt =====
-- The constructors of market features (domain/market_feature) and EmptyMarketFeatureProvider
-- (infrastructure/market_feature/empty_market_feature_provider.py). Values are finite and times are
-- aware: the types leave nothing else.
pub mod Provider
pub mod Loading
pub mod Sorting
pub mod Lookups
pub mod Sources
pub mod Kept
pub mod Accepted
pub mod Totality
use gptrader_mw_v.Prelude.{
  Bool, true, false, ◌||◌, not, String, str_eq, Option, none, some, List, [], ◌∷◌, Result, ok,
  key_error, ◌>>=◌, ◌>>◌, refuse_if, or_raise, ltb, if◌then◌else◌, is_blank, is_empty, strip, is_in,
  all_distinct,
}
use Prim.Native.String
use gptrader_mw_v.Decimal.{Decimal}
use gptrader_mw_v.Market.{Datetime, Symbol, Timeframe}
use gptrader_mw_v.Strategy.{MarketFeatureValue, MarketFeatureSet}

-- `MarketFeatureValue.normalize_name` and `normalize_source`
unfoldable pub normalize_name : String → Result String
unfolding strip is_empty
normalize_name name = do refuse_if (is_empty (strip name)) "name is required"; ok (strip name)

unfoldable pub normalize_source : String → Result String
unfolding strip is_empty
normalize_source source = do
  refuse_if (is_empty (strip source)) "source is required"
  ok (strip source)

-- `MarketFeatureValue.__post_init__`
unfoldable pub make_feature_value : MarketFeatureValue → Result MarketFeatureValue
unfolding normalize_name normalize_source
make_feature_value v = do
  name ← normalize_name v.name
  source ← normalize_source v.source
  refuse_if (ltb v.available_at v.observed_at) "observed_at must be before or equal to available_at"
  ok (record v { name = name; source = source })

unfoldable pub normalize_all : List String → Result (List String)
unfolding normalize_source
normalize_all [] = ok []
normalize_all (s ∷ ss) = do
  source ← normalize_source s
  sources ← normalize_all ss
  ok (source ∷ sources)

unfoldable pub any_blank : List String → Bool
any_blank [] = false
any_blank (s ∷ ss) = is_blank s || any_blank ss

unfoldable pub names_of : List MarketFeatureValue → List String
names_of [] = []
names_of (v ∷ vs) = v.name ∷ names_of vs

unfoldable pub sources_of : List MarketFeatureValue → List String
sources_of [] = []
sources_of (v ∷ vs) = v.source ∷ sources_of vs

unfoldable pub any_after : Datetime → List MarketFeatureValue → Bool
any_after t [] = false
any_after t (v ∷ vs) = ltb t v.available_at || any_after t vs

-- Whether the first list has an element of the second.
unfoldable pub intersects : List String → List String → Bool
intersects [] ts = false
intersects (s ∷ ss) ts = is_in s ts || intersects ss ts

-- `MarketFeatureSet.__post_init__`
unfoldable pub make_feature_set : MarketFeatureSet → Result MarketFeatureSet
unfolding any_blank normalize_all all_distinct names_of sources_of any_after intersects
make_feature_set f = do
  refuse_if (any_blank f.unavailable_sources) "unavailable source names are required"
  unavailable_sources ← normalize_all f.unavailable_sources
  refuse_if (not (all_distinct (names_of f.values))) "duplicate feature name"
  refuse_if (not (all_distinct unavailable_sources)) "duplicate unavailable source"
  refuse_if (any_after f.measured_at f.values)
      "feature available_at must be before or equal to measured_at"
  refuse_if (intersects (sources_of f.values) unavailable_sources)
      "source cannot be both available and unavailable"
  ok (record f { unavailable_sources = unavailable_sources })

unfoldable pub find_feature : String → List MarketFeatureValue → Option MarketFeatureValue
find_feature name [] = none
find_feature name (v ∷ vs) =
    let rest = find_feature name vs in if str_eq v.name name then some v else rest

-- `MarketFeatureSet.get`
unfoldable pub get_feature : MarketFeatureSet → String → Result (Option MarketFeatureValue)
unfolding find_feature normalize_name
get_feature f name = do normalized ← normalize_name name; ok (find_feature normalized f.values)

-- `MarketFeatureSet.require`
unfoldable pub require_feature : MarketFeatureSet → String → Result MarketFeatureValue
unfolding get_feature
require_feature f name = do
  found ← get_feature f name
  or_raise found (key_error (String.◌++◌ "missing market feature: " name))

-- `EmptyMarketFeatureProvider.load_features`
unfoldable pub load_no_features :
    List String → Symbol → Timeframe → Datetime → Result MarketFeatureSet
unfolding make_feature_set
load_no_features unavailable_sources symbol timeframe as_of = make_feature_set (record {
  symbol = symbol;
  timeframe = timeframe;
  measured_at = as_of;
  values = [];
  unavailable_sources = unavailable_sources;
})
