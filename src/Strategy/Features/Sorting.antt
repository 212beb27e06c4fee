-- ===== src/Strategy/Features/Sorting.antt =====
-- Bisection of sorted rows finds the latest row that is not after a time.
use gptrader_mw_v.Prelude.{
  ◌≤◌, ◌≡◌, refl, ap, ◌∙◌, Bool, true, false, ◌&&◌, Option, none, some, List, [], ◌∷◌, ltb, leb,
  if◌then◌else◌, arith,
}
use gptrader_mw_v.Market.{Datetime, Symbol, Timeframe}
use gptrader_mw_v.Strategy.{MarketFeatureSet}
use gptrader_mw_v.Strategy.Features.Provider.{of_key, insert_row, sort_rows}
use gptrader_mw_v.Strategy.Features.Loading.{bisect_right, nth, row_at}

-- The later of two rows, the one behind if they are of the same time.
abbrev pub later : MarketFeatureSet → Option MarketFeatureSet → Option MarketFeatureSet
later f none = some f
later f (some g) = if ltb g.measured_at f.measured_at then some f else some g

unfoldable pub latest_row :
    Symbol → Timeframe → Datetime → List MarketFeatureSet → Option MarketFeatureSet
latest_row symbol timeframe t [] = none
latest_row symbol timeframe t (f ∷ fs) =
    let rest = latest_row symbol timeframe t fs in
    if of_key symbol timeframe f && leb f.measured_at t then later f rest else rest

abbrev pick : Datetime → MarketFeatureSet → Option MarketFeatureSet → Option MarketFeatureSet
pick t f rest = if leb f.measured_at t then later f rest else rest

unfoldable pub latest : Datetime → List MarketFeatureSet → Option MarketFeatureSet
latest t [] = none
latest t (f ∷ fs) = pick t f (latest t fs)

abbrev or_first : MarketFeatureSet → Option MarketFeatureSet → Option MarketFeatureSet
or_first f none = some f
or_first f (some g) = some g

-- What `bisect_right` finds, by recursion.
unfoldable found : Datetime → List MarketFeatureSet → Option MarketFeatureSet
found t [] = none
found t (f ∷ fs) = if ltb t f.measured_at then none else or_first f (found t fs)

or_first-or_first :
    (f g : MarketFeatureSet) (o : Option MarketFeatureSet)
    → or_first g o ≡ or_first f (or_first g o)
or_first-or_first f g none = refl
or_first-or_first f g (some h) = refl

nth-bisect_right :
    (t : Datetime) (f : MarketFeatureSet) (fs : List MarketFeatureSet)
    → nth (bisect_right t fs) (f ∷ fs) ≡ or_first f (found t fs)
unfolding nth bisect_right found
nth-bisect_right t f [] = refl
nth-bisect_right t f (g ∷ gs) =
    ground (arith, nth-bisect_right t g gs, or_first-or_first f g (found t gs))

row_at-found : (t : Datetime) (fs : List MarketFeatureSet) → row_at t (some fs) ≡ found t fs
unfolding row_at found bisect_right nth
row_at-found t [] = refl
row_at-found t (f ∷ fs) = ground (arith, nth-bisect_right t f fs)

unfoldable IsSorted : List MarketFeatureSet → Type 0
IsSorted [] = Unit
IsSorted (f ∷ []) = Unit
IsSorted (f ∷ g ∷ fs) = (f.measured_at ≤ g.measured_at) × IsSorted (g ∷ fs)

found-first :
    (t : Datetime) (f g : MarketFeatureSet) (fs : List MarketFeatureSet)
    → IsSorted (f ∷ fs)
    → found t (f ∷ fs) ≡ some g
    → f.measured_at ≤ g.measured_at
unfolding found IsSorted
found-first t f g [] sorted h = ground arith
found-first t f g (e ∷ fs) sorted h = ground (arith, found-first t e g fs sorted.1, sorted.0)

insert_row-IsSorted :
    (f : MarketFeatureSet) (fs : List MarketFeatureSet) → IsSorted fs → IsSorted (insert_row f fs)
unfolding insert_row IsSorted
insert_row-IsSorted f [] sorted = tt
insert_row-IsSorted f (g ∷ []) sorted = ground arith
insert_row-IsSorted f (g ∷ e ∷ fs) sorted =
    by_cases (leb f.measured_at g.measured_at) (leb f.measured_at e.measured_at) refl refl
      (insert_row-IsSorted f (e ∷ fs) sorted.1)
  where
    by_cases :
        (b c : Bool)
        → leb f.measured_at g.measured_at ≡ b
        → leb f.measured_at e.measured_at ≡ c
        → IsSorted (if c then f ∷ e ∷ fs else e ∷ insert_row f fs)
        → IsSorted
            (if b then f ∷ g ∷ e ∷ fs else g ∷ (if c then f ∷ e ∷ fs else e ∷ insert_row f fs))
    by_cases true c h k rest = (ground (arith, h), sorted)
    by_cases false true h k rest = (ground (arith, h), rest)
    by_cases false false h k rest = (sorted.0, rest)

sort_rows-IsSorted : (fs : List MarketFeatureSet) → IsSorted (sort_rows fs)
unfolding sort_rows IsSorted
sort_rows-IsSorted [] = tt
sort_rows-IsSorted (f ∷ fs) = insert_row-IsSorted f (sort_rows fs) (sort_rows-IsSorted fs)

found-insert_row :
    (t : Datetime) (f : MarketFeatureSet) (fs : List MarketFeatureSet)
    → IsSorted fs
    → found t (insert_row f fs) ≡ pick t f (found t fs)
unfolding found insert_row IsSorted
found-insert_row t f [] sorted = ground arith
found-insert_row t f (g ∷ fs) sorted = ground (arith, found-insert_row t f fs, found-first t g)

found-sort_rows : (t : Datetime) (fs : List MarketFeatureSet) → found t (sort_rows fs) ≡ latest t fs
unfolding sort_rows found latest
found-sort_rows t [] = refl
found-sort_rows t (f ∷ fs) =
    found-insert_row t f (sort_rows fs) (sort_rows-IsSorted fs)
    ∙ ap (pick t f) (found-sort_rows t fs)

pub row_at-sort_rows :
    (t : Datetime) (fs : List MarketFeatureSet) → row_at t (some (sort_rows fs)) ≡ latest t fs
row_at-sort_rows t fs = row_at-found t (sort_rows fs) ∙ found-sort_rows t fs
