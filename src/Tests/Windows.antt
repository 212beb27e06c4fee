-- ===== src/Tests/Windows.antt =====
-- The theorems on temporal windows, applied.
use gptrader_mw_v.Prelude.{ℕ, suc, ◌*◌, ◌≤◌, true, ◌≡◌, refl, ok, Returns, arith}
use gptrader_mw_v.Decimal.Plain.{plain}
use gptrader_mw_v.Regime.Temporal.{
  Timestamp, UtcInterval, RegimeWalkForwardFold, is_monday_midnight_utc, check_interval, check_fold,
  build_weekly_episodes,
}
use gptrader_mw_v.Regime.Temporal.Windows.{
  Tiles, Purged, build_weekly_episodes-Tiles, check_fold-Purged,
}

abbrev monday : ℕ → Timestamp
monday n = record { instant = n * 604800000000; is_utc = true }

monday_1 : is_monday_midnight_utc (monday 1) ≡ true
unfolding is_monday_midnight_utc
monday_1 = refl

monday_3 : is_monday_midnight_utc (monday 3) ≡ true
unfolding is_monday_midnight_utc
monday_3 = refl

build_weekly_episodes-Tiles_example :
    Returns
      (λ es. Tiles (monday 1).instant es (monday 3).instant)
      (build_weekly_episodes (monday 1) (monday 3))
build_weekly_episodes-Tiles_example =
    build_weekly_episodes-Tiles (monday 1) (monday 3) monday_1 monday_3 (omega arith) (omega arith)

abbrev weeks : ℕ → ℕ → UtcInterval
weeks a b = record { start_at = monday a; end_at = monday b }

abbrev fold : RegimeWalkForwardFold
fold = record {
  cluster_fit = weeks 0 1;
  mapping_fit = weeks 2 3;
  validation = weeks 4 5;
  test = weeks 6 7;
}

weeks_run : (a b : ℕ) → suc a ≤ b → check_interval (weeks a b) ≡ ok (weeks a b)
unfolding check_interval
weeks_run a b h = ground arith

fold_run : check_fold fold ≡ ok fold
unfolding check_fold
fold_run = refl

check_fold-Purged_example :
    (fold ≡ fold)
    × Purged fold.cluster_fit fold.mapping_fit
    × Purged fold.cluster_fit fold.validation
    × Purged fold.cluster_fit fold.test
    × Purged fold.mapping_fit fold.validation
    × Purged fold.mapping_fit fold.test
    × Purged fold.validation fold.test
check_fold-Purged_example =
    check_fold-Purged fold fold (weeks 0 1) (weeks 2 3) (weeks 4 5) (weeks 6 7)
      (weeks_run 0 1 (omega arith)) (weeks_run 2 3 (omega arith)) (weeks_run 4 5 (omega arith))
      (weeks_run 6 7 (omega arith)) fold_run
