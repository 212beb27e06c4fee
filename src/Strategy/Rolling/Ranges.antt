-- ===== src/Strategy/Rolling/Ranges.antt =====
-- _RollingRange.range gives the low and the high of the last candles before the latest one.
use gptrader_mw_v.Prelude.{
  ℕ, ◌<◌, ◌≡◌, refl, sym, ap, subst, ◌∙◌, true, false, Option, none, some, List, [], ◌∷◌, ◌==◌,
  if◌then◌else◌, Option-cases, inl, inr, arith,
}
use gptrader_mw_v.Decimal.{Decimal}
use gptrader_mw_v.Market.{Datetime, Candle}
use gptrader_mw_v.Strategy.Rolling.{
  RollingRange, new_range, append, current_range, was_opened_at, restart, advance, range,
}
use gptrader_mw_v.Strategy.Rolling.Windows.{
  range_of, Holds, new_range-Holds, append-Holds, current_range-Holds,
}

-- The state after `range` was called once for each candle of the list in turn, the last time with
-- `latest`; the candle before the first of them comes last in the list.
unfoldable pub watch : ℕ → Candle → List Candle → RollingRange
unfolding range
watch period latest [] = new_range period
watch period latest (previous ∷ older) =
    let (after, answer) = range (watch period previous older) previous latest in after

-- Every candle was opened after the one behind it.
unfoldable pub Newest : Candle → List Candle → Type 0
Newest latest [] = Unit
Newest latest (previous ∷ older) = (previous.opened_at < latest.opened_at) × Newest previous older

abbrev last_seen : Candle → List Candle → Option Datetime
last_seen latest [] = none
last_seen latest (c ∷ cs) = some latest.opened_at

abbrev next : RollingRange → Candle → Candle → RollingRange
unfolding append
next r previous latest = record (append r previous) { last_opened_at = some latest.opened_at }

not_restarted :
    (r : RollingRange) (latest : Candle)
    → ((t : Datetime) → r.last_opened_at ≡ some t → t < latest.opened_at)
    → (was_opened_at r.last_opened_at latest.opened_at ≡ false)
      × (restart r.last_opened_at latest.opened_at r ≡ r)
unfolding restart
not_restarted r latest h = elim (Option-cases r.last_opened_at) [
  | inl e ↦ ground (arith, e)
  | inr (t, e) ↦ ground (arith, e, h t e)
]

-- A call with a newer candle appends the one before it.
range-newer :
    (r : RollingRange) (previous latest : Candle)
    → ((t : Datetime) → r.last_opened_at ≡ some t → t < latest.opened_at)
    → range r previous latest ≡ (next r previous latest, current_range (next r previous latest))
unfolding range advance next
range-newer r previous latest h =
    let (unopened, same) = not_restarted r latest h in
    let after = advance r previous latest in
    let advanced : after ≡ next r previous latest =
      λ i. record (append (same i) previous) { last_opened_at = some latest.opened_at } in
    ap (λ b. if b then (r, current_range r) else (after, current_range after)) unopened
    ∙ ap (λ n. (n, current_range n)) advanced

next-Holds :
    (period : ℕ) (previous latest : Candle) (older : List Candle) (r : RollingRange)
    → Holds period older r
    → Holds period (previous ∷ older) (next r previous latest)
unfolding next append
next-Holds period previous latest older r holds =
    let appended = append-Holds period previous older r holds in
    record {
      same_period = appended.same_period;
      counted = appended.counted;
      high_stairs = appended.high_stairs;
      low_stairs = appended.low_stairs;
    }

seen_before :
    (previous latest : Candle) (older : List Candle) (seen : Option Datetime)
    → previous.opened_at < latest.opened_at
    → seen ≡ last_seen previous older
    → (t : Datetime) → seen ≡ some t
    → t < latest.opened_at
seen_before previous latest [] seen newer h t e = cc
seen_before previous latest (c ∷ cs) seen newer h t e = ground (arith, h, e)

watch-Holds :
    (period : ℕ) (latest : Candle) (cs : List Candle)
    → Newest latest cs
    → Holds period cs (watch period latest cs)
      × ((watch period latest cs).last_opened_at ≡ last_seen latest cs)
unfolding watch Newest
watch-Holds period latest [] newest = (new_range-Holds period, refl)
watch-Holds period latest (previous ∷ older) newest =
    let (holds, seen) = watch-Holds period previous older newest.1 in
    let before = watch period previous older in
    let called =
      range-newer before previous latest
        (seen_before previous latest older before.last_opened_at newest.0 seen) in
    subst
      (λ both.
        Holds period (previous ∷ older) both.0 × (both.0.last_opened_at ≡ some latest.opened_at))
      (sym called) (next-Holds period previous latest older before holds, refl)

is_same : (t : Datetime) → (t == t) ≡ true
is_same t = ground arith

module _ (period : ℕ) (latest previous : Candle) (older : List Candle) where
  abbrev answered : RollingRange × Option (Decimal × Decimal)
  answered = (watch period latest (previous ∷ older), range_of period (previous ∷ older))

  first-Window :
      Newest latest (previous ∷ older)
      → range (watch period previous older) previous latest ≡ answered
  unfolding watch Newest
  first-Window newest =
      let before = watch period previous older in
      let (held, seen) = watch-Holds period previous older newest.1 in
      let called =
        range-newer before previous latest
          (seen_before previous latest older before.last_opened_at newest.0 seen) in
      let found =
        current_range-Holds period (previous ∷ older) (next before previous latest)
          (next-Holds period previous latest older before held) in
      called ∙ (λ i. ((sym called i).0, found i))

  again-Window :
      Newest latest (previous ∷ older)
      → range (watch period latest (previous ∷ older)) previous latest ≡ answered
  unfolding range
  again-Window newest =
      let after = watch period latest (previous ∷ older) in
      let (held, seen) = watch-Holds period latest (previous ∷ older) newest in
      let opened = ap (λ o. was_opened_at o latest.opened_at) seen ∙ is_same latest.opened_at in
      let moved = advance after previous latest in
      ap (λ b. if b then (after, current_range after) else (moved, current_range moved)) opened
      ∙ ap (λ a. (after, a)) (current_range-Holds period (previous ∷ older) after held)

-- Once `range` has been called for each of a sequence of candles, each opened after the one before
-- it, the call for the next one returns the lowest low and the highest high of the candles before
-- it, as many as the period says, or nothing while fewer have passed; and when the call is repeated
-- for the same candle it returns the same and changes nothing.
pub range-Window :
    (period : ℕ) (latest previous : Candle) (older : List Candle)
    → Newest latest (previous ∷ older)
    → (range (watch period previous older) previous latest
        ≡ (watch period latest (previous ∷ older), range_of period (previous ∷ older)))
      × (range (watch period latest (previous ∷ older)) previous latest
          ≡ (watch period latest (previous ∷ older), range_of period (previous ∷ older)))
range-Window period latest previous older newest = (
  first-Window period latest previous older newest,
  again-Window period latest previous older newest,
)
