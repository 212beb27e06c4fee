-- ===== src/Tests/Regimes.antt =====
-- The theorems on the selector and on the temporal windows, applied.
use gptrader_mw_v.Prelude.{
  ℕ, ◌*◌, true, false, ◌≡◌, refl, inl, String, Option, none, some, [], ◌∷◌, ok, Returns,
  is_canonical, pos, arith,
}
use gptrader_mw_v.Decimal.Plain.{plain}
use gptrader_mw_v.Regime.Temporal.{Timestamp, is_regime_boundary}
use gptrader_mw_v.Regime.Selection.{
  classification, cluster_transition, strategy_transition, RegimeSelectionState, check_state,
  check_counts, cash_transition, entry_suspended,
}
use gptrader_mw_v.Regime.Artifacts.{SelectionArtifactSnapshot, is_sha256, lookup}
use gptrader_mw_v.Regime.Selection.States.{IsValid}
use gptrader_mw_v.Regime.Parts.{strategy_events}
use gptrader_mw_v.Regime.Select.{
  transition, confident_transition, low_confidence_transition, make_state,
}
use gptrader_mw_v.Regime.Observations.{SelectStrategyCommand}
use gptrader_mw_v.Regime.Select.Made.{Fits}
use gptrader_mw_v.Regime.Select.Commits.{Step}
use gptrader_mw_v.Regime.Select.Steps.{transition-Step}
use gptrader_mw_v.Regime.Select.Runs.{Committed, confirm_twice, doubt_twice}

abbrev pub same : String → String
same s = s

abbrev pub digest : String
digest = "0123456789abcdef0123456789abcdef0123456789abcdef0123456789abcdef"

pub digest-is_sha256 : is_sha256 digest ≡ true
unfolding is_sha256
digest-is_sha256 = refl

abbrev pub boundary : ℕ → Timestamp
boundary n = record { instant = n * 14400000000; is_utc = true }

pub boundary_0 : is_regime_boundary (boundary 0) ≡ true
unfolding is_regime_boundary
boundary_0 = refl

boundary_1 : is_regime_boundary (boundary 1) ≡ true
unfolding is_regime_boundary
boundary_1 = refl

abbrev pub artifact : String → SelectionArtifactSnapshot
artifact identity = record {
  model_artifact_hash = digest;
  mapping_artifact_hash = digest;
  cluster_strategy_mapping = ("calm", some "drift") ∷ ("wild", some "swing") ∷ [];
  model_type = "gmm";
  confidence_thresholds = record {
    model_type = "gmm";
    gmm_probability_min = some (pos 600000);
    gmm_margin_min = some (pos 200000);
    kmeans_max_standardized_distances = [];
  };
  artifact_identity = identity;
}

abbrev pub seen : Option RegimeSelectionState → ℕ → SelectStrategyCommand
seen previous n = record {
  previous_state = previous;
  symbol = "ETH";
  boundary_at = boundary n;
  artifact_snapshot = artifact digest;
  assignment = record {
    fingerprint = "wild";
    dominant_probability = pos 900000;
    second_probability = pos 100000;
    distance = none;
  };
}

abbrev pub state : RegimeSelectionState
state = record {
  symbol = "ETH";
  artifact_version = digest;
  current_cluster_fingerprint = some "calm";
  active_strategy_profile_id = some "drift";
  pending_cluster_fingerprint = none;
  pending_confirmation_count = 0;
  consecutive_low_confidence_count = 0;
  new_entries_enabled = true;
  last_boundary_at = boundary 0;
  state_version = 1;
  pending_artifact_version = none;
}

pub state-IsValid : IsValid same state
unfolding is_canonical
state-IsValid = record {
  symbol = refl;
  uppercase = refl;
  artifact = digest-is_sha256;
  current = refl;
  active = refl;
  pending = refl;
  replacement = refl;
  boundary = boundary_0;
  consistent = record {
    pending = inl (refl, refl);
    replacement_differs = refl;
    replacement_pending = λ h. cc;
    replacement_suspends = λ h. cc;
    low_alone = λ h. refl;
    low_bound = omega arith;
    low_suspends = λ h. absurd (omega arith);
    low_cash = λ h. absurd (omega arith);
    selected = λ h. cc;
    cash = λ h. cc;
  };
}

pub seen-Fits :
    (p : Option RegimeSelectionState) (n : ℕ)
    → is_regime_boundary (boundary n) ≡ true
    → Fits same (seen p n)
unfolding is_canonical lookup
seen-Fits p n h = record {
  symbol = refl;
  uppercase = refl;
  boundary = h;
  identity = digest-is_sha256;
  fingerprint = refl;
  strategy = some "swing";
  mapped = refl;
  strategy_canonical = refl;
}

transition-Step_example :
    Returns
      (λ (s, es). Step same state (seen (some state) 1) true s es)
      (transition same (some state) (seen (some state) 1) true)
transition-Step_example =
    transition-Step same state (seen (some state) 1) true refl state-IsValid
      (seen-Fits (some state) 1 boundary_1)

abbrev waiting : RegimeSelectionState
waiting = record state {
  pending_cluster_fingerprint = some "wild";
  pending_confirmation_count = 1;
  last_boundary_at = boundary 1;
  state_version = 2;
}

abbrev moved : RegimeSelectionState
moved = record state {
  current_cluster_fingerprint = some "wild";
  active_strategy_profile_id = some "swing";
  last_boundary_at = boundary 1;
  state_version = 3;
}

waiting_run :
    transition same (some state) (seen (some state) 1) true ≡ ok (waiting, classification ∷ [])
unfolding transition confident_transition make_state check_state is_canonical is_sha256
    is_regime_boundary check_counts
waiting_run = refl

moved_run :
    transition same (some waiting) (seen (some waiting) 1) true
    ≡ ok (moved, cluster_transition ∷ strategy_transition ∷ [])
unfolding transition confident_transition lookup make_state check_state is_canonical is_sha256
    is_regime_boundary check_counts strategy_events
moved_run = refl

confirm_twice_example : Committed (seen (some waiting) 1) moved
confirm_twice_example =
    confirm_twice same state waiting moved (seen (some state) 1) (seen (some waiting) 1)
      (classification ∷ []) (cluster_transition ∷ strategy_transition ∷ []) state-IsValid refl
      (seen-Fits (some state) 1 boundary_1) (seen-Fits (some waiting) 1 boundary_1) refl refl
      waiting_run moved_run

abbrev doubted : RegimeSelectionState
doubted = record state {
  consecutive_low_confidence_count = 1;
  new_entries_enabled = false;
  last_boundary_at = boundary 1;
  state_version = 2;
}

abbrev in_cash : RegimeSelectionState
in_cash = record doubted {
  active_strategy_profile_id = none;
  consecutive_low_confidence_count = 2;
  state_version = 3;
}

doubted_run :
    transition same (some state) (seen (some state) 1) false ≡ ok (doubted, entry_suspended ∷ [])
unfolding transition low_confidence_transition make_state check_state is_canonical is_sha256
    is_regime_boundary check_counts
doubted_run = refl

in_cash_run :
    transition same (some doubted) (seen (some doubted) 1) false
    ≡ ok (in_cash, cash_transition ∷ [])
unfolding transition low_confidence_transition make_state check_state is_canonical is_sha256
    is_regime_boundary check_counts
in_cash_run = refl

doubt_twice_example :
    (in_cash.active_strategy_profile_id ≡ none)
    × (in_cash.new_entries_enabled ≡ false)
    × (in_cash.current_cluster_fingerprint ≡ some "calm")
    × (in_cash.artifact_version ≡ digest)
doubt_twice_example =
    doubt_twice same state doubted in_cash (seen (some state) 1) (seen (some doubted) 1)
      (entry_suspended ∷ []) (cash_transition ∷ []) state-IsValid refl refl
      (seen-Fits (some state) 1 boundary_1) (seen-Fits (some doubted) 1 boundary_1) doubted_run
      in_cash_run
