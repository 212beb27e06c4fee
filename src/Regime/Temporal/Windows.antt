-- ===== src/Regime/Temporal/Windows.antt =====
-- What the temporal helpers of the regimes promise.
use gptrader_mw_v.Prelude.{
  ℕ, zero, suc, ◌+◌, ◌*◌, ◌-◌, ◌/◌, ◌%◌, ◌≤◌, true, ◌≡◌, ◌↔◌, List, [], ◌∷◌, ok, Returns, arith,
}
use gptrader_mw_v.Regime.Temporal.{
  Timestamp, seven_days, is_regime_boundary, is_monday_midnight_utc, week_after, UtcInterval,
  check_interval, RegimeWalkForwardFold, check_fold, check_purged, WeeklyEpisode, weekly_episodes,
  build_weekly_episodes,
}

-- A boundary is a UTC instant that is a whole number of four-hour steps.
pub is_regime_boundary-step :
    (t : Timestamp)
    → (is_regime_boundary t ≡ true) ↔ ((t.is_utc ≡ true) × (t.instant % 14400000000 ≡ 0))
unfolding is_regime_boundary
is_regime_boundary-step t = (λ h. ground arith, λ (u, m). ground arith)

-- Episodes that tile a range: each starts where the one before ended and lasts seven days, its anchor
-- is its start, and its features start seven days earlier.
abbrev pub Tiles : ℕ → List WeeklyEpisode → ℕ → Type 0
Tiles a [] b = a ≡ b
Tiles a (e ∷ es) b =
    (e.anchor_at.instant ≡ a)
    × (e.start_at.instant ≡ a)
    × (e.end_at.instant ≡ a + seven_days)
    × (e.feature_start_at.instant + seven_days ≡ a)
    × Tiles (a + seven_days) es b

weekly_episodes-Tiles :
    (n : ℕ) (anchor end : Timestamp)
    → anchor.instant + n * seven_days ≡ end.instant
    → seven_days ≤ anchor.instant
    → Returns (λ es. Tiles anchor.instant es end.instant) (weekly_episodes n anchor end)
unfolding weekly_episodes
weekly_episodes-Tiles zero anchor end h late = omega arith
weekly_episodes-Tiles (suc n) anchor end h late =
    ground (arith, weekly_episodes-Tiles n (week_after anchor) end (omega arith) (omega arith))

monday_week : (t : Timestamp) → is_monday_midnight_utc t ≡ true → t.instant % seven_days ≡ 0
unfolding is_monday_midnight_utc
monday_week t h = ground arith

whole_weeks :
    (a b : ℕ)
    → a % seven_days ≡ 0
    → b % seven_days ≡ 0
    → a ≤ b
    → ((b - a) % seven_days ≡ 0) × (a + (b - a) / seven_days * seven_days ≡ b)
whole_weeks a b ha hb h = (omega arith, omega arith)

-- When both endpoints are Monday midnights in UTC, the first at least seven days after
-- `datetime.min`, and the end is later, `build_weekly_episodes` returns episodes that tile the range.
pub build_weekly_episodes-Tiles :
    (start end : Timestamp)
    → is_monday_midnight_utc start ≡ true
    → is_monday_midnight_utc end ≡ true
    → seven_days ≤ start.instant
    → suc start.instant ≤ end.instant
    → Returns (λ es. Tiles start.instant es end.instant) (build_weekly_episodes start end)
unfolding build_weekly_episodes
build_weekly_episodes-Tiles start end hs he late h =
    let weeks =
      whole_weeks start.instant end.instant (monday_week start hs) (monday_week end he)
        (omega arith) in
    let n = (end.instant - start.instant) / seven_days in
    ground (arith, weekly_episodes-Tiles n start end weeks.1 late)

-- The first interval ends at least seven days before the second one starts.
abbrev pub Purged : UtcInterval → UtcInterval → Type 0
Purged a b = a.end_at.instant + seven_days ≤ b.start_at.instant

pub check_interval-ok :
    (i j : UtcInterval)
    → check_interval i ≡ ok j
    → (j ≡ i)
      × (i.start_at.is_utc ≡ true)
      × (i.end_at.is_utc ≡ true)
      × (suc i.start_at.instant ≤ i.end_at.instant)
unfolding check_interval
check_interval-ok i j h = ground arith

-- In a fold that its constructor accepts, made of intervals that theirs accepts, any interval ends at
-- least seven days before any later one starts, so no two of them overlap.
pub check_fold-Purged :
    (f g : RegimeWalkForwardFold) (a b c d : UtcInterval)
    → check_interval f.cluster_fit ≡ ok a
    → check_interval f.mapping_fit ≡ ok b
    → check_interval f.validation ≡ ok c
    → check_interval f.test ≡ ok d
    → check_fold f ≡ ok g
    → (g ≡ f)
      × Purged f.cluster_fit f.mapping_fit
      × Purged f.cluster_fit f.validation
      × Purged f.cluster_fit f.test
      × Purged f.mapping_fit f.validation
      × Purged f.mapping_fit f.test
      × Purged f.validation f.test
unfolding check_fold check_purged
check_fold-Purged f g a b c d ha hb hc hd h =
    let (_, _, _, longer_b) = check_interval-ok f.mapping_fit b hb in
    let (_, _, _, longer_c) = check_interval-ok f.validation c hc in ground arith
