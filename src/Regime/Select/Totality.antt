-- ===== src/Regime/Select/Totality.antt =====
-- `execute` returns whenever the values it is given were accepted by their constructors.
use gptrader_mw_v.Prelude.{
  Bool, true, false, ◌≡◌, subst, String, Option, some, ok, Returns, Returns-map, Returns-value,
  arith,
}
use gptrader_mw_v.Decimal.{Context}
use gptrader_mw_v.Regime.Artifacts.{
  is_sha256, lookup, check_thresholds, SelectionConfidenceThresholds, SelectionArtifactSnapshot,
  make_snapshot,
}
use gptrader_mw_v.Regime.Observations.{SelectStrategyCommand, check_command, is_high_confidence}
use gptrader_mw_v.Regime.Select.{same_boundary, execute}
use gptrader_mw_v.Regime.Select.Commands.{command-Fits}
use gptrader_mw_v.Regime.Select.Confidence.{Measured, is_high_confidence-Returns}
use gptrader_mw_v.Regime.Select.Results.{Selected, ValidBefore, execute-Selected}

made-same :
    (digest : SelectionArtifactSnapshot → String) (s t : SelectionArtifactSnapshot)
    (identity : Option String)
    → make_snapshot digest s identity ≡ ok t
    → (t.model_type ≡ s.model_type)
      × (t.confidence_thresholds ≡ s.confidence_thresholds)
      × (t.cluster_strategy_mapping ≡ s.cluster_strategy_mapping)
unfolding make_snapshot
made-same digest s t identity h = ground arith

module _ (upper : String → String) (digest : SelectionArtifactSnapshot → String)
    (input_hash : SelectStrategyCommand → String) ⦃context : Context⦄ where
  -- When the digests are hexadecimal texts of 64 digits, the thresholds, the snapshot and the command
  -- were accepted by their constructors, the distance of the assignment fits the model, the state
  -- before is valid or there is none, and the boundary is another one than the last, then `execute`
  -- returns, and for high or low confidence the new state and events are those of the first state or
  -- of one step.
  pub execute-Returns :
      ((s : SelectionArtifactSnapshot) → is_sha256 (digest s) ≡ true)
      → ((c : SelectStrategyCommand) → is_sha256 (input_hash c) ≡ true)
      → (s : SelectionArtifactSnapshot) (identity : Option String)
        (t : SelectionConfidenceThresholds) (c d : SelectStrategyCommand)
      → check_thresholds s.confidence_thresholds ≡ ok t
      → make_snapshot digest s identity ≡ ok c.artifact_snapshot
      → check_command upper c ≡ ok d
      → Measured s.model_type c.assignment
      → ValidBefore upper c.previous_state
      → same_boundary upper c.previous_state c.boundary_at ≡ false
      → Returns
          (λ r. (high : Bool) × Selected upper c.previous_state c high r.state r.events)
          (execute upper input_hash c)
  execute-Returns hashed hashed' s identity t c d thresholds made checked measured v fresh =
      let f = command-Fits upper digest hashed c d s identity made checked in
      let (model, same_thresholds, mapping) =
        made-same digest s c.artifact_snapshot identity made in
      let found : lookup s.cluster_strategy_mapping c.assignment.fingerprint ≡ some f.strategy =
        subst (λ m. lookup m c.assignment.fingerprint ≡ some f.strategy) mapping f.mapped in
      let (high, told, _) =
        Returns-value (is_high_confidence s.model_type s.confidence_thresholds c.assignment) (
          is_high_confidence-Returns digest s c.artifact_snapshot identity t c.assignment f.strategy
            thresholds made found measured) in
      let told' : is_high_confidence c.artifact_snapshot.model_type
            c.artifact_snapshot.confidence_thresholds c.assignment
          ≡ ok high =
        rw model (rw same_thresholds told) in
      Returns-map (execute upper input_hash c) (λ r k. (high, k.0))
        (execute-Selected upper input_hash hashed' c high told' v f fresh)
