-- ===== src/Regime/Select.antt =====
-- application/usecases/regime/select_strategy_usecase.py: one step of the selector.
pub mod Events
pub mod Made
pub mod Commits
pub mod Steps
pub mod Runs
pub mod Commands
pub mod Confidence
pub mod Results
pub mod Totality
use gptrader_mw_v.Prelude.{
  ℕ, suc, ◌+◌, Bool, true, false, not, ◌&&◌, ◌||◌, String, str_eq, Option, none, some, List, [],
  ◌∷◌, ◌++◌, Result, ok, err, ◌>>=◌, ◌>>◌, refuse_if, or_raise, key_error, decimal_error,
  value_error, is_none, is_some, is_canonical, ℤ, leb_ℤ, ltb, leb, ◌==◌, if◌then◌else◌,
}
use gptrader_mw_v.Decimal.{Decimal, Context, minus}
use gptrader_mw_v.Regime.Temporal.{Timestamp, is_regime_boundary}
use gptrader_mw_v.Regime.Selection.{
  SelectionEventType, classification, entry_suspended, cluster_transition, strategy_transition,
  cash_transition, artifact_replaced, RegimeSelectionState, check_state, SelectStrategyResult,
  check_result,
}
use gptrader_mw_v.Regime.Artifacts.{
  option_eq, Mapping, lookup, SelectionConfidenceThresholds, SelectionArtifactSnapshot,
}
use gptrader_mw_v.Regime.Observations.{
  ClusterAssignment, SelectStrategyCommand, missing_current, check_symbol_and_time, lost_current,
  check_command, gmm_is_confident, is_high_confidence,
}
use gptrader_mw_v.Regime.Parts.{
  SelectionEvents, min_ℕ, strategy_events, or_classification, StateParts, parts, previous_version,
  state_of, strategy_at, confirms,
}

module _ (upper : String → String) where
  -- `_make_state`
  unfoldable pub make_state : SelectStrategyCommand → StateParts → Result RegimeSelectionState
  make_state c k = check_state upper (state_of c k)

  -- `_initial_transition`
  unfoldable pub initial_transition :
      SelectStrategyCommand → Bool → Result (RegimeSelectionState × SelectionEvents)
  initial_transition c high =
      if not high
      then (do
        state ←
            make_state c
              (record (parts c.artifact_snapshot.artifact_identity none none) { low_count = 1 })
        ok (state, classification ∷ []))
      else (do
        let fingerprint = c.assignment.fingerprint
        strategy ← strategy_at c fingerprint
        state ←
            make_state c
              (record (parts c.artifact_snapshot.artifact_identity (some fingerprint) strategy) {
                entries = is_some strategy;
              })
        ok (state, classification ∷ []))

  -- `_confident_transition`
  unfoldable pub confident_transition :
      RegimeSelectionState → SelectStrategyCommand → Result (RegimeSelectionState × SelectionEvents)
  confident_transition previous c =
      let fingerprint = c.assignment.fingerprint in
      if option_eq (some fingerprint) previous.current_cluster_fingerprint
      then (do
        strategy ← strategy_at c fingerprint
        state ← make_state c (record (parts previous.artifact_version (some fingerprint) strategy) {
          entries = is_some strategy;
        })
        ok (
          state,
          or_classification (strategy_events previous.active_strategy_profile_id strategy),
        ))
      else if not (confirms none previous fingerprint)
      then (do
        state ←
            make_state c
              (record (parts previous.artifact_version previous.current_cluster_fingerprint
                previous.active_strategy_profile_id) {
                  pending_cluster = some fingerprint;
                  pending_count = 1;
                  entries = previous.new_entries_enabled;
                })
        ok (state, classification ∷ []))
      else (do
        strategy ← strategy_at c fingerprint
        state ← make_state c (record (parts previous.artifact_version (some fingerprint) strategy) {
          entries = is_some strategy;
        })
        ok (
          state,
          cluster_transition ∷ strategy_events previous.active_strategy_profile_id strategy,
        ))

  -- `_low_confidence_transition`
  unfoldable pub low_confidence_transition :
      RegimeSelectionState → SelectStrategyCommand → Result (RegimeSelectionState × SelectionEvents)
  low_confidence_transition previous c =
      let low_count = min_ℕ (previous.consecutive_low_confidence_count + 1) 2 in
      let commits_cash = leb 2 low_count in
      let events =
        if commits_cash
        then (if is_some previous.active_strategy_profile_id
            then cash_transition ∷ []
            else classification ∷ [])
        else (if previous.new_entries_enabled then entry_suspended ∷ [] else classification ∷ []) in
      let active = if commits_cash then none else previous.active_strategy_profile_id in
      (do
        state ←
            make_state c
              (record (parts previous.artifact_version previous.current_cluster_fingerprint
                active) { low_count = low_count })
        ok (state, events))

  -- `_replacement_transition`
  unfoldable pub replacement_transition :
      RegimeSelectionState
      → SelectStrategyCommand
      → Bool
      → Result (RegimeSelectionState × SelectionEvents)
  replacement_transition previous c high =
      let fingerprint = c.assignment.fingerprint in
      let identity = c.artifact_snapshot.artifact_identity in
      if not high
      then low_confidence_transition previous c
      else if not (confirms (some identity) previous fingerprint)
      then (do
        state ←
            make_state c
              (record (parts previous.artifact_version previous.current_cluster_fingerprint
                previous.active_strategy_profile_id) {
                  pending_cluster = some fingerprint;
                  pending_count = 1;
                  pending_artifact = some identity;
                })
        ok (
          state,
          (if previous.new_entries_enabled then entry_suspended ∷ [] else classification ∷ []),
        ))
      else (do
        strategy ← strategy_at c fingerprint
        let moved =
            if not (option_eq previous.current_cluster_fingerprint (some fingerprint))
            then cluster_transition ∷ []
            else []
        state ←
            make_state c
              (record (parts identity (some fingerprint) strategy) { entries = is_some strategy })
        ok (
          state,
          artifact_replaced
              ∷ (moved ++ strategy_events previous.active_strategy_profile_id strategy),
        ))

  -- The choice of the transition in `execute`.
  unfoldable pub transition :
      Option RegimeSelectionState
      → SelectStrategyCommand
      → Bool
      → Result (RegimeSelectionState × SelectionEvents)
  transition none c high = initial_transition c high
  transition (some previous) c high =
      if not (str_eq c.artifact_snapshot.artifact_identity previous.artifact_version)
      then replacement_transition previous c high
      else if high
      then confident_transition previous c
      else low_confidence_transition previous c

  abbrev pub same_boundary : Option RegimeSelectionState → Timestamp → Bool
  same_boundary none t = false
  same_boundary (some p) t = t.instant == p.last_boundary_at.instant

  module _ (input_hash : SelectStrategyCommand → String) ⦃context : Context⦄ where
    -- `SelectStrategyUseCase.execute`, with `selection_command_input_hash` as an argument.
    unfoldable pub execute : SelectStrategyCommand → Result SelectStrategyResult
    execute c = do
      refuse_if (same_boundary c.previous_state c.boundary_at)
          "equal boundary requires scheduler retry preflight"
      high ←
          is_high_confidence c.artifact_snapshot.model_type
            c.artifact_snapshot.confidence_thresholds c.assignment
      (state, events) ← transition c.previous_state c high
      check_result (record {
        expected_state_version = previous_version c.previous_state;
        state = state;
        events = events;
        evaluated_artifact_identity = c.artifact_snapshot.artifact_identity;
        selection_input_hash = input_hash c;
      })
