-- ===== src/Strategy/Features/Loading.antt =====
-- `load_features` of InMemoryMarketFeatureProvider, on what its constructor has built.
use gptrader_mw_v.Prelude.{
  ℕ, zero, suc, Bool, false, ◌&&◌, not, String, str_eq, Option, none, some, List, [], ◌∷◌, ◌++◌,
  Result, ℤ, sub_ℕ, ltb_ℤ, ltb, if◌then◌else◌, is_in,
}
use gptrader_mw_v.Market.{Datetime, Symbol, Timeframe}
use gptrader_mw_v.Strategy.{MarketFeatureValue, MarketFeatureSet}
use gptrader_mw_v.Strategy.Features.{sources_of, make_feature_set}
use gptrader_mw_v.Strategy.Features.Provider.{KeyRows, InMemoryMarketFeatureProvider, is_key}

-- `self._rows_by_key.get((symbol, timeframe))`
unfoldable pub rows_of : Symbol → Timeframe → List KeyRows → Option (List MarketFeatureSet)
rows_of symbol timeframe [] = none
rows_of symbol timeframe (k ∷ ks) =
    let rest = rows_of symbol timeframe ks in
    if is_key k symbol timeframe then some k.rows else rest

-- `bisect_right` on the times of sorted rows: how many of them are not after `t`.
unfoldable pub bisect_right : Datetime → List MarketFeatureSet → ℕ
bisect_right t [] = 0
bisect_right t (f ∷ fs) =
    let rest = bisect_right t fs in if ltb t f.measured_at then 0 else suc rest

unfoldable pub nth : ℕ → List MarketFeatureSet → Option MarketFeatureSet
nth n [] = none
nth zero (f ∷ fs) = some f
nth (suc n) (f ∷ fs) = nth n fs

abbrev pub before : ℕ → List MarketFeatureSet → Option MarketFeatureSet
unfolding nth
before zero fs = none
before (suc n) fs = nth n fs

-- The row that `load_features` takes, if any.
unfoldable pub row_at : Datetime → Option (List MarketFeatureSet) → Option MarketFeatureSet
unfolding bisect_right nth before
row_at t none = none
row_at t (some fs) = before (bisect_right t fs) fs

-- `self._max_staleness_by_source.get(source)`: the last entry of the source.
unfoldable pub last_limit : String → List (String × Option ℤ) → Option (Option ℤ)
last_limit source [] = none
last_limit source ((key, limit) ∷ rest) = elim (last_limit source rest) [
  | none ↦ if str_eq key source then some limit else none
  | some later ↦ some later
]

-- `limit is not None and as_of - t > limit`
abbrev pub is_stale : Datetime → Datetime → Option ℤ → Bool
is_stale as_of t none = false
is_stale as_of t (some limit) = ltb_ℤ limit (sub_ℕ as_of t)

abbrev pub limit_of : String → List (String × Option ℤ) → Option ℤ
unfolding last_limit
limit_of source limits = elim (last_limit source limits) [ none ↦ none | some limit ↦ limit ]

abbrev pub is_stale_value : List (String × Option ℤ) → Datetime → MarketFeatureValue → Bool
unfolding limit_of last_limit
is_stale_value limits as_of v = is_stale as_of v.available_at (limit_of v.source limits)

-- The two lists of the loop of `load_features`: the values that are kept, and the others.
unfoldable pub fresh_values :
    List (String × Option ℤ) → Datetime → List MarketFeatureValue → List MarketFeatureValue
unfolding is_stale_value
fresh_values limits as_of [] = []
fresh_values limits as_of (v ∷ vs) =
    let rest = fresh_values limits as_of vs in
    if is_stale_value limits as_of v then rest else v ∷ rest

unfoldable pub stale_sources :
    List (String × Option ℤ) → Datetime → List MarketFeatureValue → List String → List String
unfolding is_stale_value
stale_sources limits as_of [] found = found
stale_sources limits as_of (v ∷ vs) found = stale_sources limits as_of vs (
    if is_stale_value limits as_of v && not (is_in v.source found)
    then found ++ v.source ∷ []
    else found)

unfoldable pub without : List String → List String → List String
without taken [] = []
without taken (s ∷ ss) = let rest = without taken ss in if is_in s taken then rest else s ∷ rest

-- `dict.fromkeys`: every source where it stands first.
unfoldable pub merge_sources : List String → List String → List String
merge_sources seen [] = []
merge_sources seen (s ∷ ss) =
    if is_in s seen then merge_sources seen ss else s ∷ merge_sources (s ∷ seen) ss

module _ (p : InMemoryMarketFeatureProvider) (symbol : Symbol) (timeframe : Timeframe)
    (as_of : Datetime) where
  -- `_empty`
  unfoldable pub empty : List String → Result MarketFeatureSet
  unfolding merge_sources make_feature_set
  empty additional = make_feature_set (record {
    symbol = symbol;
    timeframe = timeframe;
    measured_at = as_of;
    values = [];
    unavailable_sources = merge_sources [] (p.unavailable_sources ++ additional);
  })

  -- What `load_features` gives for the row that it takes.
  unfoldable pub answer : Option MarketFeatureSet → Result MarketFeatureSet
  unfolding empty sources_of fresh_values stale_sources without merge_sources make_feature_set
  answer none = empty []
  answer (some f) =
      let values = fresh_values p.max_staleness_by_source as_of f.values in
      let stale = stale_sources p.max_staleness_by_source as_of f.values [] in
      if is_stale as_of f.measured_at p.max_staleness
      then empty (merge_sources [] (f.unavailable_sources ++ sources_of f.values))
      else make_feature_set (record {
        symbol = symbol;
        timeframe = timeframe;
        measured_at = as_of;
        values = values;
        unavailable_sources =
            merge_sources []
              (p.unavailable_sources ++ f.unavailable_sources ++ without (sources_of values) stale);
      })

  -- `load_features`
  unfoldable pub load_features : Result MarketFeatureSet
  unfolding row_at rows_of answer
  load_features = answer (row_at as_of (rows_of symbol timeframe p.rows_by_key))
