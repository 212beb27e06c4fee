-- ===== src/Tests/Selections.antt =====
-- The theorems on runs of the selector, applied.
use gptrader_mw_v.Prelude.{Bool, ◌≡◌, refl, none, some, [], ◌∷◌, ok, Returns, is_canonical, ◌-ℤ◌}
use gptrader_mw_v.Decimal.{minus}
use gptrader_mw_v.Decimal.Plain.{plain}
use gptrader_mw_v.Regime.Temporal.{is_regime_boundary}
use gptrader_mw_v.Regime.Selection.{
  classification, SelectStrategyResult, check_state, check_counts, check_result,
}
use gptrader_mw_v.Regime.Artifacts.{
  check_thresholds, make_snapshot, is_sha256, lookup, check_mapping, check_identity,
  is_empty_mapping,
}
use gptrader_mw_v.Regime.Select.{transition, execute, initial_transition, make_state}
use gptrader_mw_v.Regime.Observations.{is_high_confidence, check_command}
use gptrader_mw_v.Regime.Select.Made.{Fits}
use gptrader_mw_v.Regime.Select.Commands.{command-Fits}
use gptrader_mw_v.Regime.Select.Results.{Selected}
use gptrader_mw_v.Regime.Select.Totality.{execute-Returns}
use gptrader_mw_v.Tests.Regimes.{
  same, digest, digest-is_sha256, artifact, seen, state, state-IsValid,
}

abbrev started : SelectStrategyResult
started = record {
  expected_state_version = 0;
  state = record state {
    current_cluster_fingerprint = some "wild";
    active_strategy_profile_id = some "swing";
  };
  events = classification ∷ [];
  evaluated_artifact_identity = digest;
  selection_input_hash = digest;
}

started_run : execute same (λ c. digest) (seen none 0) ≡ ok started
unfolding execute is_high_confidence transition initial_transition minus ◌-ℤ◌ lookup make_state
    check_state is_canonical is_sha256 is_regime_boundary check_counts check_result
started_run = refl

snapshot_run : make_snapshot (λ s. digest) (artifact "") none ≡ ok (artifact digest)
unfolding make_snapshot is_sha256 is_empty_mapping check_mapping is_canonical check_identity
snapshot_run = refl

checked_run : check_command same (seen (some state) 1) ≡ ok (seen (some state) 1)
unfolding check_command is_canonical is_regime_boundary lookup
checked_run = refl

command-Fits_example : Fits same (seen (some state) 1)
command-Fits_example =
    command-Fits same (λ s. digest) (λ s. digest-is_sha256) (seen (some state) 1)
      (seen (some state) 1) (artifact "") none snapshot_run checked_run

thresholds_run :
    check_thresholds (artifact "").confidence_thresholds ≡ ok (artifact "").confidence_thresholds
unfolding check_thresholds is_empty_mapping
thresholds_run = refl

execute-Returns_example :
    Returns
      (λ r. (high : Bool) × Selected same (some state) (seen (some state) 1) high r.state r.events)
      (execute same (λ c. digest) (seen (some state) 1))
execute-Returns_example =
    execute-Returns same (λ s. digest) (λ c. digest) (λ s. digest-is_sha256) (λ c. digest-is_sha256)
      (artifact "") none (artifact "").confidence_thresholds (seen (some state) 1)
      (seen (some state) 1) thresholds_run snapshot_run checked_run refl state-IsValid refl
