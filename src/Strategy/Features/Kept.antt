-- ===== src/Strategy/Features/Kept.antt =====
-- What is kept of the values of a row meets the checks of a feature set again.
use gptrader_mw_v.Prelude.{
  subst, ◌≤◌, ◌≡◌, refl, Bool, true, false, ◌&&◌, not, String, Option, List, [], ◌∷◌, ◌++◌, ok, ℤ,
  is_in, all_distinct, if◌then◌else◌, arith, >>=-eq-ok, inl, inr, Bool-cases,
}
use gptrader_mw_v.Market.{Datetime}
use gptrader_mw_v.Strategy.{MarketFeatureValue, MarketFeatureSet}
use gptrader_mw_v.Strategy.Features.{
  normalize_source, normalize_all, make_feature_value, make_feature_set, names_of, sources_of,
  any_after, intersects,
}
use gptrader_mw_v.Strategy.Features.Loading.{fresh_values, stale_sources, is_stale_value}
use gptrader_mw_v.Strategy.Features.Sources.{
  AreNormal, AreNormal-any_blank, AreNormal-normalize_all, AreNormal-++, normalize_source-normal,
}

-- Every value is as its constructor leaves it.
unfoldable pub AreAccepted : List MarketFeatureValue → Type 0
AreAccepted [] = Unit
AreAccepted (v ∷ vs) = (make_feature_value v ≡ ok v) × AreAccepted vs

make_feature_value-source :
    (v : MarketFeatureValue) → make_feature_value v ≡ ok v → normalize_source v.source ≡ ok v.source
unfolding make_feature_value normalize_source
make_feature_value-source v h = ground (arith, h)

pub sources_of-AreNormal :
    (vs : List MarketFeatureValue) → AreAccepted vs → AreNormal (sources_of vs)
unfolding AreAccepted AreNormal sources_of
sources_of-AreNormal [] accepted = tt
sources_of-AreNormal (v ∷ vs) accepted =
    (make_feature_value-source v accepted.0, sources_of-AreNormal vs accepted.1)

pub normalize_all-AreNormal : (ss ts : List String) → normalize_all ss ≡ ok ts → AreNormal ts
unfolding normalize_all AreNormal
normalize_all-AreNormal [] [] h = tt
normalize_all-AreNormal [] (t ∷ ts) h = absurd (ground (arith, h))
normalize_all-AreNormal (s ∷ ss) ts h =
    let (source, made, rest) = >>=-eq-ok (normalize_source s) _ h in
    let (sources, others, done) = >>=-eq-ok (normalize_all ss) _ rest in
    let same : source ∷ sources ≡ ts = ground (arith, done) in
    subst AreNormal same
      (normalize_source-normal s source made, normalize_all-AreNormal ss sources others)

-- A set of normal, distinct parts is accepted as it is.
pub make_feature_set-accepts :
    (f : MarketFeatureSet)
    → AreNormal f.unavailable_sources
    → all_distinct f.unavailable_sources ≡ true
    → all_distinct (names_of f.values) ≡ true
    → any_after f.measured_at f.values ≡ false
    → intersects (sources_of f.values) f.unavailable_sources ≡ false
    → make_feature_set f ≡ ok f
unfolding make_feature_set
make_feature_set-accepts f normal distinct named timely apart = ground (
  arith,
  distinct,
  named,
  timely,
  apart,
  AreNormal-any_blank f.unavailable_sources normal,
  AreNormal-normalize_all f.unavailable_sources normal,
)

-- What an accepted set promises.
pub make_feature_set-promises :
    (f : MarketFeatureSet)
    → make_feature_set f ≡ ok f
    → (normalize_all f.unavailable_sources ≡ ok f.unavailable_sources)
      × (all_distinct (names_of f.values) ≡ true)
      × (any_after f.measured_at f.values ≡ false)
      × (intersects (sources_of f.values) f.unavailable_sources ≡ false)
unfolding make_feature_set
make_feature_set-promises f h = ground (arith, h)

module _ (limits : List (String × Option ℤ)) (as_of : Datetime) where
  fresh-is_in :
      (name : String) (vs : List MarketFeatureValue)
      → is_in name (names_of vs) ≡ false
      → is_in name (names_of (fresh_values limits as_of vs)) ≡ false
  unfolding fresh_values names_of is_in
  fresh-is_in name [] h = refl
  fresh-is_in name (v ∷ vs) h = elim (Bool-cases (is_stale_value limits as_of v)) [
    | inl stale ↦ rw stale (ground (arith, h, fresh-is_in name vs))
    | inr fresh ↦ rw fresh (ground (arith, h, fresh-is_in name vs))
  ]

  pub fresh-distinct :
      (vs : List MarketFeatureValue)
      → all_distinct (names_of vs) ≡ true
      → all_distinct (names_of (fresh_values limits as_of vs)) ≡ true
  unfolding fresh_values names_of all_distinct
  fresh-distinct [] h = refl
  fresh-distinct (v ∷ vs) h = elim (Bool-cases (is_stale_value limits as_of v)) [
    | inl stale ↦ rw stale (ground (arith, h, fresh-distinct vs))
    | inr fresh ↦ rw fresh (ground (arith, h, fresh-distinct vs, fresh-is_in v.name vs))
  ]

  pub fresh-timely :
      (measured_at : Datetime) (vs : List MarketFeatureValue)
      → measured_at ≤ as_of
      → any_after measured_at vs ≡ false
      → any_after as_of (fresh_values limits as_of vs) ≡ false
  unfolding fresh_values any_after
  fresh-timely measured_at [] m h = refl
  fresh-timely measured_at (v ∷ vs) m h = elim (Bool-cases (is_stale_value limits as_of v)) [
    | inl stale ↦ rw stale (ground (arith, m, h, fresh-timely measured_at vs))
    | inr fresh ↦ rw fresh (ground (arith, m, h, fresh-timely measured_at vs))
  ]

  pub fresh-apart :
      (ts : List String) (vs : List MarketFeatureValue)
      → intersects (sources_of vs) ts ≡ false
      → intersects (sources_of (fresh_values limits as_of vs)) ts ≡ false
  unfolding fresh_values sources_of intersects
  fresh-apart ts [] h = refl
  fresh-apart ts (v ∷ vs) h = elim (Bool-cases (is_stale_value limits as_of v)) [
    | inl stale ↦ rw stale (ground (arith, h, fresh-apart ts vs))
    | inr fresh ↦ rw fresh (ground (arith, h, fresh-apart ts vs))
  ]

  pub stale_sources-AreNormal :
      (vs : List MarketFeatureValue) (found : List String)
      → AreAccepted vs
      → AreNormal found
      → AreNormal (stale_sources limits as_of vs found)
  unfolding stale_sources AreAccepted AreNormal
  stale_sources-AreNormal [] found accepted normal = normal
  stale_sources-AreNormal (v ∷ vs) found accepted normal =
      stale_sources-AreNormal vs _ accepted.1
        (by_cases (is_stale_value limits as_of v && not (is_in v.source found)))
    where
      by_cases : (b : Bool) → AreNormal (if b then found ++ v.source ∷ [] else found)
      by_cases true =
          AreNormal-++ found (v.source ∷ []) normal (make_feature_value-source v accepted.0, tt)
      by_cases false = normal
