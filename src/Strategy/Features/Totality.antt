-- ===== src/Strategy/Features/Totality.antt =====
-- load_features of the provider in memory never raises on sets that their constructor accepts.
use gptrader_mw_v.Prelude.{
  ◌≤◌, ◌≡◌, refl, sym, subst, String, Option, some, List, [], ◌++◌, Result, ok, ℤ, all_distinct,
  arith, >>=-eq-ok, ap, ◌∙◌, inl, inr, Bool-cases, Option-cases,
}
use gptrader_mw_v.Market.{Datetime, Symbol, Timeframe}
use gptrader_mw_v.Strategy.{MarketFeatureSet}
use gptrader_mw_v.Strategy.Features.{
  make_feature_set, normalize_all, names_of, sources_of, any_after, intersects,
}
use gptrader_mw_v.Strategy.Features.Provider.{
  InMemoryMarketFeatureProvider, add_rows, make_provider, validate_staleness, validate_by_source,
  normalize_sources,
}
use gptrader_mw_v.Strategy.Features.Loading.{
  answer, empty, load_features, is_stale, fresh_values, stale_sources, without, merge_sources,
}
use gptrader_mw_v.Strategy.Features.Sorting.{latest_row}
use gptrader_mw_v.Strategy.Features.Lookups.{load_features-latest}
use gptrader_mw_v.Strategy.Features.Sources.{
  AreNormal, AreNormal-++, without-AreNormal, merge_sources-AreNormal, merge_sources-is_in,
  merge_sources-distinct, is_in-++, is_in-without,
}
use gptrader_mw_v.Strategy.Features.Kept.{
  sources_of-AreNormal, normalize_all-AreNormal, make_feature_set-accepts,
  make_feature_set-promises, fresh-distinct, fresh-timely, fresh-apart, stale_sources-AreNormal,
}
use gptrader_mw_v.Strategy.Features.Accepted.{
  intersects-is_in, apart, normal_nil, IsRow, AreConstructed, add_rows-IsRow,
}

module _ (p : InMemoryMarketFeatureProvider) (symbol : Symbol) (timeframe : Timeframe)
    (as_of : Datetime) (normal : AreNormal p.unavailable_sources) where
  abbrev Answered : Result MarketFeatureSet → Type 0
  Answered r =
      (g : MarketFeatureSet) × (r ≡ ok g) × (make_feature_set g ≡ ok g) × (g.measured_at ≡ as_of)

  empty-Answered :
      (additional : List String)
      → AreNormal additional
      → Answered (empty p symbol timeframe as_of additional)
  unfolding empty names_of sources_of any_after intersects all_distinct
  empty-Answered additional others =
      let sources = p.unavailable_sources ++ additional in
      let accepted =
        make_feature_set-accepts
          (record {
            symbol = symbol;
            timeframe = timeframe;
            measured_at = as_of;
            values = [];
            unavailable_sources = merge_sources [] sources;
          })
          (merge_sources-AreNormal [] sources
            (AreNormal-++ p.unavailable_sources additional normal others))
          (merge_sources-distinct [] sources) refl refl refl in
      (_, accepted, accepted, refl)

  answer-Answered :
      (f : MarketFeatureSet)
      → IsRow p.unavailable_sources f
      → f.measured_at ≤ as_of
      → Answered (answer p symbol timeframe as_of (some f))
  unfolding answer
  answer-Answered f row timely =
      let limits = p.max_staleness_by_source in
      let (listed, named, in_time, own) = make_feature_set-promises f row.set in
      let marked = normalize_all-AreNormal f.unavailable_sources f.unavailable_sources listed in
      let values = fresh_values limits as_of f.values in
      let stale = without (sources_of values) (stale_sources limits as_of f.values []) in
      let known = p.unavailable_sources ++ f.unavailable_sources in
      elim (Bool-cases (is_stale as_of f.measured_at p.max_staleness)) [
        | inl outdated ↦ rw outdated (
            empty-Answered _ (
              merge_sources-AreNormal [] _ (
                AreNormal-++ f.unavailable_sources (sources_of f.values) marked
                  (sources_of-AreNormal f.values row.values))))
        | inr current ↦
            let accepted =
              make_feature_set-accepts
                (record {
                  symbol = symbol;
                  timeframe = timeframe;
                  measured_at = as_of;
                  values = values;
                  unavailable_sources = merge_sources [] (known ++ stale);
                })
                (merge_sources-AreNormal [] (known ++ stale) (
                  AreNormal-++ known stale
                    (AreNormal-++ p.unavailable_sources f.unavailable_sources normal marked)
                    (without-AreNormal (sources_of values) (stale_sources limits as_of f.values [])
                      (stale_sources-AreNormal limits as_of f.values [] row.values normal_nil))))
                (merge_sources-distinct [] (known ++ stale))
                (fresh-distinct limits as_of f.values named)
                (fresh-timely limits as_of f.measured_at f.values timely in_time)
                (apart (sources_of values) (merge_sources [] (known ++ stale)) (λ s k.
                  merge_sources-is_in s [] (known ++ stale) (
                    ground (
                      arith,
                      is_in-++ s known stale,
                      is_in-++ s p.unavailable_sources f.unavailable_sources,
                      intersects-is_in s (sources_of values) p.unavailable_sources
                          (fresh-apart limits as_of p.unavailable_sources f.values row.apart) k,
                      intersects-is_in s (sources_of values) f.unavailable_sources
                          (fresh-apart limits as_of f.unavailable_sources f.values own) k,
                      is_in-without s (sources_of values) (stale_sources limits as_of f.values [])
                          k,
                    )))) in
            rw current (_, accepted, accepted, refl)
      ]

-- A provider made of feature sets that their constructors accept answers every question: it returns
-- a feature set that the constructor accepts, measured at the time it is asked for, so that none of
-- its values has become available later.
pub load_features-Answered :
    (conflict : List String → String) (field_name : String → String)
    (feature_sets : List MarketFeatureSet) (max_staleness : Option ℤ)
    (by_source : List (String × Option ℤ)) (unavailable : List String)
    (p : InMemoryMarketFeatureProvider) (symbol : Symbol) (timeframe : Timeframe) (as_of : Datetime)
    → AreConstructed feature_sets
    → make_provider conflict field_name feature_sets max_staleness by_source unavailable ≡ ok p
    → (g : MarketFeatureSet) × (load_features p symbol timeframe as_of ≡ ok g)
      × (make_feature_set g ≡ ok g)
      × (g.measured_at ≡ as_of)
unfolding make_provider normalize_sources answer
load_features-Answered conflict field_name feature_sets max_staleness by_source unavailable p symbol
      timeframe as_of constructed made =
    let (validated, h1, rest1) =
      >>=-eq-ok (validate_staleness max_staleness "max_staleness") _ made in
    let (limits, h2, rest2) = >>=-eq-ok (validate_by_source field_name by_source) _ rest1 in
    let (sources, h3, rest3) = >>=-eq-ok (normalize_sources unavailable) _ rest2 in
    let (keys, added, rest4) = >>=-eq-ok (add_rows conflict sources [] feature_sets []) _ rest3 in
    let same : sources ≡ p.unavailable_sources = ground (arith, rest4) in
    let (all, normalized, rest5) = >>=-eq-ok (normalize_all unavailable) _ h3 in
    let listed : all ≡ sources = ground (arith, rest5) in
    let normal =
      subst AreNormal (listed ∙ same) (normalize_all-AreNormal unavailable all normalized) in
    let looked_up =
      load_features-latest conflict field_name feature_sets max_staleness by_source unavailable p
        symbol timeframe as_of made in
    elim (Option-cases (latest_row symbol timeframe as_of feature_sets)) [
      | inl nothing ↦
          subst (Answered p symbol timeframe as_of normal)
            (sym (looked_up ∙ ap (answer p symbol timeframe as_of) nothing))
            (empty-Answered p symbol timeframe as_of normal [] normal_nil)
      | inr (f, found) ↦
          let (row, in_time) =
            add_rows-IsRow conflict sources symbol timeframe as_of [] feature_sets [] keys f
              constructed added found in
          subst (Answered p symbol timeframe as_of normal)
            (sym (looked_up ∙ ap (answer p symbol timeframe as_of) found))
            (answer-Answered p symbol timeframe as_of normal f
              (subst (λ taken. IsRow taken f) same row) in_time)
    ]
