-- ===== src/Strategy/Features/Accepted.antt =====
-- The row that the provider takes is one that its constructor has accepted.
use gptrader_mw_v.Prelude.{
  ◌≤◌, ◌≡◌, ◌⊎◌, refl, subst, Bool, true, false, ◌&&◌, String, eq_iff, eq_refl, Option, none, some,
  List, [], ◌∷◌, ok, refuse_if, is_in, ltb, leb, if◌then◌else◌, arith, >>=-eq-ok, inl, inr,
  Bool-cases,
}
use gptrader_mw_v.Market.{Datetime, Symbol, Timeframe}
use gptrader_mw_v.Strategy.{MarketFeatureSet}
use gptrader_mw_v.Strategy.Features.{make_feature_set, sources_of, intersects}
use gptrader_mw_v.Strategy.Features.Provider.{KeyRows, of_key, add_row, is_seen, add_rows}
use gptrader_mw_v.Strategy.Features.Sorting.{latest_row, later}
use gptrader_mw_v.Strategy.Features.Sources.{AreNormal}
use gptrader_mw_v.Strategy.Features.Kept.{AreAccepted}

pub intersects-is_in :
    (s : String) (ss us : List String)
    → intersects ss us ≡ false
    → is_in s ss ≡ true
    → is_in s us ≡ false
unfolding intersects is_in
intersects-is_in s [] us h k = ground (arith, k)
intersects-is_in s (t ∷ ss) us h k = ground (arith, h, k, intersects-is_in s ss us, eq_iff s t)

pub apart :
    (ss us : List String)
    → ((s : String) → is_in s ss ≡ true → is_in s us ≡ false)
    → intersects ss us ≡ false
unfolding intersects is_in
apart [] us h = refl
apart (s ∷ ss) us h =
    let here : is_in s us ≡ false = h s (ground (arith, eq_refl s)) in
    let rest = apart ss us (λ t k. h t (ground (arith, k))) in ground (arith, here, rest)

pub normal_nil : AreNormal []
unfolding AreNormal
normal_nil = tt

-- A row that the provider has accepted.
pub record IsRow (unavailable : List String) (f : MarketFeatureSet) : Type 0 where
  pub set : make_feature_set f ≡ ok f
  pub values : AreAccepted f.values
  pub apart : intersects (sources_of f.values) unavailable ≡ false

-- Every set and every value in it is as its constructor leaves it.
unfoldable pub AreConstructed : List MarketFeatureSet → Type 0
AreConstructed [] = Unit
AreConstructed (f ∷ fs) = (make_feature_set f ≡ ok f) × AreAccepted f.values × AreConstructed fs

latest_row-cases :
    (t : Datetime) (b : Bool) (g f : MarketFeatureSet) (rest : Option MarketFeatureSet)
    → (if b && leb g.measured_at t then later g rest else rest) ≡ some f
    → (rest ≡ some f) ⊎ ((g ≡ f) × (g.measured_at ≤ t))
latest_row-cases t false g f rest h = inl h
latest_row-cases t true g f none h = elim (Bool-cases (leb g.measured_at t)) [
  | inl in_time ↦ inr (ground (arith, in_time, h), ground (arith, in_time))
  | inr late ↦ inl (ground (arith, late, h))
]
latest_row-cases t true g f (some e) h = elim (Bool-cases (leb g.measured_at t)) [
  | inl in_time ↦ elim (Bool-cases (ltb e.measured_at g.measured_at)) [
    | inl newer ↦ inr (ground (arith, in_time, newer, h), ground (arith, in_time))
    | inr older ↦ inl (ground (arith, in_time, older, h))
  ]
  | inr late ↦ inl (ground (arith, late, h))
]

pub add_rows-IsRow :
    (conflict : List String → String) (unavailable : List String) (symbol : Symbol)
    (timeframe : Timeframe) (t : Datetime) (seen fs : List MarketFeatureSet)
    (ks added : List KeyRows) (f : MarketFeatureSet)
    → AreConstructed fs
    → add_rows conflict unavailable seen fs ks ≡ ok added
    → latest_row symbol timeframe t fs ≡ some f
    → IsRow unavailable f × (f.measured_at ≤ t)
unfolding add_rows latest_row AreConstructed
add_rows-IsRow conflict unavailable symbol timeframe t seen [] ks added f made h found =
    absurd (ground (arith, found))
add_rows-IsRow conflict unavailable symbol timeframe t seen (g ∷ gs) ks added f made h found =
    let names = sources_of g.values in
    let (unit, unconflicting, rest) =
      >>=-eq-ok (refuse_if (intersects names unavailable) (conflict names)) _ h in
    let (unit', unseen, rest') =
      >>=-eq-ok (refuse_if (is_seen g seen) "duplicate market feature timestamp") _ rest in
    elim (latest_row-cases t (of_key symbol timeframe g) g f (latest_row symbol timeframe t gs)
      found) [
        | inl behind ↦
            add_rows-IsRow conflict unavailable symbol timeframe t (g ∷ seen) gs (add_row g ks)
              added f made.2 rest' behind
        | inr (same, in_time) ↦
            let row : IsRow unavailable g = record {
              set = made.0;
              values = made.1;
              apart = ground (arith, unconflicting);
            } in
            subst (λ e. IsRow unavailable e × (e.measured_at ≤ t)) same (row, in_time)
      ]
