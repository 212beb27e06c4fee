-- ===== src/Regime/Selection/States.antt =====
-- What the constructor of the selection state accepts.
use gptrader_mw_v.Prelude.{
  ◌≤◌, true, false, ◌≡◌, ◌⊎◌, String, str_eq, none, some, ok, is_some, is_canonical, arith,
}
use gptrader_mw_v.Regime.Temporal.{is_regime_boundary}
use gptrader_mw_v.Regime.Selection.{RegimeSelectionState, check_counts, check_state}
use gptrader_mw_v.Regime.Artifacts.{all_option, option_eq, is_sha256}

-- How the fields of a valid state fit together.
pub record Consistent (s : RegimeSelectionState) : Type 0 where
  pub pending :
      ((s.pending_confirmation_count ≡ 0) × (s.pending_cluster_fingerprint ≡ none))
      ⊎ ((s.pending_confirmation_count ≡ 1) × (is_some s.pending_cluster_fingerprint ≡ true))
  pub replacement_differs : option_eq s.pending_artifact_version (some s.artifact_version) ≡ false
  pub replacement_pending :
      is_some s.pending_artifact_version ≡ true → s.pending_confirmation_count ≡ 1
  pub replacement_suspends :
      is_some s.pending_artifact_version ≡ true → s.new_entries_enabled ≡ false
  pub low_alone : 1 ≤ s.consecutive_low_confidence_count → s.pending_confirmation_count ≡ 0
  pub low_bound : s.consecutive_low_confidence_count ≤ 2
  pub low_suspends : 1 ≤ s.consecutive_low_confidence_count → s.new_entries_enabled ≡ false
  pub low_cash : s.consecutive_low_confidence_count ≡ 2 → s.active_strategy_profile_id ≡ none
  pub selected : s.current_cluster_fingerprint ≡ none → s.active_strategy_profile_id ≡ none
  pub cash : s.active_strategy_profile_id ≡ none → s.new_entries_enabled ≡ false

pub check_counts-accepts : (s : RegimeSelectionState) → Consistent s → check_counts s ≡ ok s
unfolding check_counts
check_counts-accepts s c = ground arith

check_counts-ok : (s t : RegimeSelectionState) → check_counts s ≡ ok t → (t ≡ s) × Consistent s
unfolding check_counts
check_counts-ok s t h = ground arith

module _ (upper : String → String) where
  -- What the constructor of a selection state accepts.
  pub record IsValid (s : RegimeSelectionState) : Type 0 where
    pub symbol : is_canonical s.symbol ≡ true
    pub uppercase : str_eq s.symbol (upper s.symbol) ≡ true
    pub artifact : is_sha256 s.artifact_version ≡ true
    pub current : all_option is_canonical s.current_cluster_fingerprint ≡ true
    pub active : all_option is_canonical s.active_strategy_profile_id ≡ true
    pub pending : all_option is_canonical s.pending_cluster_fingerprint ≡ true
    pub replacement : all_option is_sha256 s.pending_artifact_version ≡ true
    pub boundary : is_regime_boundary s.last_boundary_at ≡ true
    pub consistent : Consistent s

  pub check_state-accepts : (s : RegimeSelectionState) → IsValid s → check_state upper s ≡ ok s
  unfolding check_state
  check_state-accepts s v = ground (arith, check_counts-accepts s v.consistent)

  -- `check_state` returns only a valid state, and returns it unchanged.
  pub check_state-ok :
      (s t : RegimeSelectionState) → check_state upper s ≡ ok t → (t ≡ s) × IsValid s
  unfolding check_state
  check_state-ok s t h = ground (arith, check_counts-ok s t)
