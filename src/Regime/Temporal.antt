-- ===== src/Regime/Temporal.antt =====
-- domain/regime/temporal.py: boundaries, feature windows, weekly episodes and walk-forward folds.
pub mod Windows
use gptrader_mw_v.Prelude.{
  ℕ, zero, suc, ◌+◌, ◌*◌, ◌-◌, ◌/◌, ◌%◌, Bool, true, false, not, ◌&&◌, ◌||◌, List, [], ◌∷◌, Result,
  ok, err, ◌>>=◌, ◌>>◌, refuse_if, overflow_error, ltb, leb, ◌==◌, if◌then◌else◌,
}

-- An aware `datetime`: the number of microseconds since `datetime.min` in UTC, and whether its
-- `tzinfo` is the object `timezone.utc`. Comparisons and differences are those of the instants.
pub record Timestamp : Type 0 where
  pub instant : ℕ
  pub is_utc : Bool

-- The fields of a `datetime` in UTC; `datetime.min` is a Monday.
abbrev pub microsecond : ℕ → ℕ
microsecond t = t % 1000000

abbrev pub second : ℕ → ℕ
second t = t / 1000000 % 60

abbrev pub minute : ℕ → ℕ
minute t = t / 60000000 % 60

abbrev pub hour : ℕ → ℕ
hour t = t / 3600000000 % 24

abbrev pub weekday : ℕ → ℕ
weekday t = t / 86400000000 % 7

abbrev pub seven_days : ℕ
seven_days = 604800000000

-- `_is_canonical_utc`
abbrev pub is_canonical_utc : Timestamp → Bool
is_canonical_utc t = t.is_utc

unfoldable pub is_regime_boundary : Timestamp → Bool
is_regime_boundary t =
    is_canonical_utc t
    && minute t.instant == 0
    && second t.instant == 0
    && microsecond t.instant == 0
    && hour t.instant % 4 == 0

-- `_is_monday_midnight_utc`
unfoldable pub is_monday_midnight_utc : Timestamp → Bool
is_monday_midnight_utc t =
    is_canonical_utc t
    && weekday t.instant == 0
    && hour t.instant == 0
    && minute t.instant == 0
    && second t.instant == 0
    && microsecond t.instant == 0

-- `value - timedelta(days=7)`, which fails before `datetime.min`.
abbrev pub week_before : Timestamp → Result Timestamp
week_before t =
    if ltb t.instant seven_days
    then err overflow_error
    else ok (record { instant = t.instant - seven_days; is_utc = t.is_utc })

abbrev pub week_after : Timestamp → Timestamp
week_after t = record { instant = t.instant + seven_days; is_utc = t.is_utc }

unfoldable pub feature_window : Timestamp → Result (Timestamp × Timestamp)
unfolding is_regime_boundary
feature_window anchor_at = do
  refuse_if (not (is_regime_boundary anchor_at)) "anchor must be a four-hour UTC boundary"
  start_at ← week_before anchor_at
  ok (start_at, anchor_at)

pub record UtcInterval : Type 0 where
  pub start_at : Timestamp
  pub end_at : Timestamp

-- `UtcInterval.__post_init__`
unfoldable pub check_interval : UtcInterval → Result UtcInterval
check_interval i = do
  refuse_if (not (is_canonical_utc i.start_at) || not (is_canonical_utc i.end_at))
      "interval timestamps must be UTC"
  refuse_if (leb i.end_at.instant i.start_at.instant) "interval end must be after start"
  ok i

pub record RegimeWalkForwardFold : Type 0 where
  pub cluster_fit : UtcInterval
  pub mapping_fit : UtcInterval
  pub validation : UtcInterval
  pub test : UtcInterval

-- The loop over `zip(intervals, intervals[1:])`; a difference is below seven days exactly when the
-- later start is before seven days after the earlier end.
unfoldable pub check_purged : UtcInterval → List UtcInterval → Result (Unit {0})
check_purged earlier [] = ok tt
check_purged earlier (later ∷ rest) = do
  refuse_if (ltb later.start_at.instant (earlier.end_at.instant + seven_days))
      "every fold boundary requires a seven-day purge"
  check_purged later rest

-- `RegimeWalkForwardFold.__post_init__`
unfoldable pub check_fold : RegimeWalkForwardFold → Result RegimeWalkForwardFold
unfolding check_purged
check_fold f = do check_purged f.cluster_fit (f.mapping_fit ∷ f.validation ∷ f.test ∷ []); ok f

pub record WeeklyEpisode : Type 0 where
  pub anchor_at : Timestamp
  pub feature_start_at : Timestamp
  pub start_at : Timestamp
  pub end_at : Timestamp

-- The `while` loop. The fuel is the number of weeks in the range, which is the number of rounds.
unfoldable pub weekly_episodes : ℕ → Timestamp → Timestamp → Result (List WeeklyEpisode)
weekly_episodes zero anchor_at end_at = ok []
weekly_episodes (suc fuel) anchor_at end_at = do
  let rest = weekly_episodes fuel (week_after anchor_at) end_at
  if not (ltb anchor_at.instant end_at.instant) then ok [] else (do
    feature_start_at ← week_before anchor_at
    episodes ← rest
    ok (
        record {
          anchor_at = anchor_at;
          feature_start_at = feature_start_at;
          start_at = anchor_at;
          end_at = week_after anchor_at;
        }
        ∷ episodes))

unfoldable pub build_weekly_episodes : Timestamp → Timestamp → Result (List WeeklyEpisode)
unfolding weekly_episodes is_monday_midnight_utc
build_weekly_episodes start_at end_at = do
  refuse_if (not (is_monday_midnight_utc start_at) || not (is_monday_midnight_utc end_at))
      "episode endpoints must be Monday 00:00 UTC"
  refuse_if (leb end_at.instant start_at.instant) "episode end must be after start"
  let range_duration = end_at.instant - start_at.instant
  refuse_if (not (range_duration % seven_days == 0))
      "episode range must be a multiple of seven days"
  weekly_episodes (range_duration / seven_days) start_at end_at
