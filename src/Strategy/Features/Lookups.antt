-- ===== src/Strategy/Features/Lookups.antt =====
-- load_features of the provider in memory takes the latest row of the market that is not after the
-- time it is asked for.
use gptrader_mw_v.Prelude.{
  ◌≡◌, refl, sym, ap, ◌∙◌, Bool, true, false, String, eq_iff, Option, none, some, List, [], ◌∷◌,
  ◌++◌, ok, ℤ, if◌then◌else◌, arith, inl, inr, Bool-cases, >>=-eq-ok, refuse_if,
}
use mathlib.Core.List.{append-nil}
use gptrader_mw_v.Market.{Datetime, Symbol, Timeframe}
use gptrader_mw_v.Strategy.{MarketFeatureSet}
use gptrader_mw_v.Strategy.Features.Provider.{
  KeyRows, InMemoryMarketFeatureProvider, of_key, is_key, add_row, is_seen, add_rows, sort_rows,
  sort_keys, make_provider, validate_staleness, validate_by_source, normalize_sources,
}
use gptrader_mw_v.Strategy.Features.Loading.{
  rows_of, bisect_right, nth, row_at, answer, load_features,
}
use gptrader_mw_v.Strategy.Features.{sources_of, intersects}
use gptrader_mw_v.Strategy.Features.Sorting.{latest_row, latest, row_at-sort_rows}

-- The rows of a market, in the order in which they were given.
unfoldable rows_with : Symbol → Timeframe → List MarketFeatureSet → List MarketFeatureSet
rows_with symbol timeframe [] = []
rows_with symbol timeframe (f ∷ fs) =
    let rest = rows_with symbol timeframe fs in if of_key symbol timeframe f then f ∷ rest else rest

latest-rows_with :
    (symbol : Symbol) (timeframe : Timeframe) (t : Datetime) (fs : List MarketFeatureSet)
    → latest t (rows_with symbol timeframe fs) ≡ latest_row symbol timeframe t fs
unfolding latest rows_with latest_row
latest-rows_with symbol timeframe t [] = refl
latest-rows_with symbol timeframe t (f ∷ fs) =
    ground (arith, latest-rows_with symbol timeframe t fs)

abbrev or_none : Option (List MarketFeatureSet) → List MarketFeatureSet
or_none none = []
or_none (some fs) = fs

added_here :
    (b : Bool) (fs : List MarketFeatureSet) (f : MarketFeatureSet)
    (o : Option (List MarketFeatureSet))
    → or_none (if b then some (fs ++ f ∷ []) else o)
      ≡ or_none (if b then some fs else o) ++ (if b then f ∷ [] else [])
added_here true fs f o = refl
added_here false fs f o = sym (append-nil (or_none o))

in_front :
    (b : Bool) (fs : List MarketFeatureSet) (f : MarketFeatureSet) (gs : List MarketFeatureSet)
    → (fs ++ (if b then f ∷ [] else [])) ++ gs ≡ fs ++ (if b then f ∷ gs else gs)
in_front true [] f gs = refl
in_front true (e ∷ fs) f gs = ap (λ rest. e ∷ rest) (in_front true fs f gs)
in_front false fs f gs = ap (λ before. before ++ gs) (append-nil fs)

-- Two keys of a row are the same for every other key.
is_key-of_key :
    (k : KeyRows) (f : MarketFeatureSet) (symbol : Symbol) (timeframe : Timeframe)
    → is_key k f.symbol f.timeframe ≡ true
    → is_key k symbol timeframe ≡ of_key symbol timeframe f
is_key-of_key k f symbol timeframe h = ground (
  arith,
  h,
  eq_iff k.symbol.base_asset f.symbol.base_asset,
  eq_iff k.symbol.quote_asset f.symbol.quote_asset,
  eq_iff k.timeframe.unit f.timeframe.unit,
)

is_key-other :
    (k : KeyRows) (f : MarketFeatureSet) (symbol : Symbol) (timeframe : Timeframe)
    → is_key k f.symbol f.timeframe ≡ false
    → is_key k symbol timeframe ≡ true
    → of_key symbol timeframe f ≡ false
is_key-other k f symbol timeframe h m = ground (
  arith,
  h,
  m,
  eq_iff k.symbol.base_asset symbol.base_asset,
  eq_iff k.symbol.quote_asset symbol.quote_asset,
  eq_iff k.timeframe.unit timeframe.unit,
  eq_iff f.symbol.base_asset symbol.base_asset,
  eq_iff f.symbol.quote_asset symbol.quote_asset,
  eq_iff f.timeframe.unit timeframe.unit,
  eq_iff k.symbol.base_asset f.symbol.base_asset,
  eq_iff k.symbol.quote_asset f.symbol.quote_asset,
  eq_iff k.timeframe.unit f.timeframe.unit,
)

rows_of-add_row :
    (symbol : Symbol) (timeframe : Timeframe) (f : MarketFeatureSet) (ks : List KeyRows)
    → or_none (rows_of symbol timeframe (add_row f ks))
      ≡ or_none (rows_of symbol timeframe ks) ++ (if of_key symbol timeframe f then f ∷ [] else [])
unfolding rows_of add_row
rows_of-add_row symbol timeframe f [] = ground arith
rows_of-add_row symbol timeframe f (k ∷ ks) = elim (Bool-cases (is_key k f.symbol f.timeframe)) [
  | inl h ↦
      rw (h, is_key-of_key k f symbol timeframe h)
        (added_here (of_key symbol timeframe f) k.rows f (rows_of symbol timeframe ks))
  | inr h ↦ elim (Bool-cases (is_key k symbol timeframe)) [
    | inl m ↦ rw (h, m, is_key-other k f symbol timeframe h m) (sym (append-nil k.rows))
    | inr m ↦ rw (h, m) (rows_of-add_row symbol timeframe f ks)
  ]
]

rows_of-add_rows :
    (conflict : List String → String) (unavailable : List String) (symbol : Symbol)
    (timeframe : Timeframe) (seen fs : List MarketFeatureSet) (ks added : List KeyRows)
    → add_rows conflict unavailable seen fs ks ≡ ok added
    → or_none (rows_of symbol timeframe added)
      ≡ or_none (rows_of symbol timeframe ks) ++ rows_with symbol timeframe fs
unfolding add_rows rows_with
rows_of-add_rows conflict unavailable symbol timeframe seen [] ks added h =
    ground (arith, h, append-nil (or_none (rows_of symbol timeframe ks)))
rows_of-add_rows conflict unavailable symbol timeframe seen (f ∷ fs) ks added h =
    let names = sources_of f.values in
    let (unit, accepted, rest) =
      >>=-eq-ok (refuse_if (intersects names unavailable) (conflict names)) _ h in
    let (unit', unseen, rest') =
      >>=-eq-ok (refuse_if (is_seen f seen) "duplicate market feature timestamp") _ rest in
    rows_of-add_rows conflict unavailable symbol timeframe (f ∷ seen) fs (add_row f ks) added rest'
    ∙ ap (λ before. before ++ rows_with symbol timeframe fs) (rows_of-add_row symbol timeframe f ks)
    ∙ in_front (of_key symbol timeframe f) (or_none (rows_of symbol timeframe ks)) f
        (rows_with symbol timeframe fs)

rows_of-sort_keys :
    (symbol : Symbol) (timeframe : Timeframe) (ks : List KeyRows)
    → or_none (rows_of symbol timeframe (sort_keys ks))
      ≡ sort_rows (or_none (rows_of symbol timeframe ks))
unfolding rows_of sort_keys sort_rows
rows_of-sort_keys symbol timeframe [] = refl
rows_of-sort_keys symbol timeframe (k ∷ ks) = ground (arith, rows_of-sort_keys symbol timeframe ks)

row_at-or_none :
    (t : Datetime) (o : Option (List MarketFeatureSet)) → row_at t o ≡ row_at t (some (or_none o))
unfolding row_at bisect_right nth
row_at-or_none t none = refl
row_at-or_none t (some fs) = refl

row_at-latest :
    (symbol : Symbol) (timeframe : Timeframe) (t : Datetime) (feature_sets : List MarketFeatureSet)
    (keys : List KeyRows)
    → or_none (rows_of symbol timeframe keys) ≡ rows_with symbol timeframe feature_sets
    → row_at t (rows_of symbol timeframe (sort_keys keys))
      ≡ latest_row symbol timeframe t feature_sets
row_at-latest symbol timeframe t feature_sets keys held =
    row_at-or_none t (rows_of symbol timeframe (sort_keys keys))
    ∙ ap (λ rows. row_at t (some rows))
        (rows_of-sort_keys symbol timeframe keys ∙ ap sort_rows held)
    ∙ row_at-sort_rows t (rows_with symbol timeframe feature_sets)
    ∙ latest-rows_with symbol timeframe t feature_sets

-- A provider made of any feature sets answers from the latest of them that is of the market and not
-- after the time it is asked for, or without one if there is none: sorting and bisection find what
-- a scan of all the sets finds.
pub load_features-latest :
    (conflict : List String → String) (field_name : String → String)
    (feature_sets : List MarketFeatureSet) (max_staleness : Option ℤ)
    (by_source : List (String × Option ℤ)) (unavailable : List String)
    (p : InMemoryMarketFeatureProvider) (symbol : Symbol) (timeframe : Timeframe) (as_of : Datetime)
    → make_provider conflict field_name feature_sets max_staleness by_source unavailable ≡ ok p
    → load_features p symbol timeframe as_of
      ≡ answer p symbol timeframe as_of (latest_row symbol timeframe as_of feature_sets)
unfolding make_provider load_features rows_of
load_features-latest conflict field_name feature_sets max_staleness by_source unavailable p symbol
      timeframe as_of made =
    let (validated, h1, rest1) =
      >>=-eq-ok (validate_staleness max_staleness "max_staleness") _ made in
    let (limits, h2, rest2) = >>=-eq-ok (validate_by_source field_name by_source) _ rest1 in
    let (sources, h3, rest3) = >>=-eq-ok (normalize_sources unavailable) _ rest2 in
    let (keys, added, rest4) = >>=-eq-ok (add_rows conflict sources [] feature_sets []) _ rest3 in
    let same : p.rows_by_key ≡ sort_keys keys = ground (arith, rest4) in
    ap (λ ks. answer p symbol timeframe as_of (row_at as_of (rows_of symbol timeframe ks))) same
    ∙ ap (answer p symbol timeframe as_of) (
        row_at-latest symbol timeframe as_of feature_sets keys
          (rows_of-add_rows conflict sources symbol timeframe [] feature_sets [] keys added))
