-- ===== src/Regime/Select/Commands.antt =====
-- What a command provides that its constructor accepts, on a snapshot that its constructor made.
use gptrader_mw_v.Prelude.{
  true, false, ◌≡◌, inl, inr, String, str_eq, eq_iff, Option, some, [], ◌∷◌, ok, is_none,
  is_canonical, Option-cases, arith,
}
use gptrader_mw_v.Regime.Temporal.{is_regime_boundary}
use gptrader_mw_v.Regime.Artifacts.{
  all_option, is_sha256, Mapping, lookup, SelectionArtifactSnapshot, check_mapping, make_snapshot,
}
use gptrader_mw_v.Regime.Observations.{SelectStrategyCommand, check_command}
use gptrader_mw_v.Regime.Select.Made.{Fits}

lookup-canonical :
    (m : Mapping (Option String)) (k : String) (v : Option String)
    → check_mapping m ≡ ok tt
    → lookup m k ≡ some v
    → (is_canonical k ≡ true) × (all_option is_canonical v ≡ true)
unfolding check_mapping lookup
lookup-canonical [] k v checked found = cc
lookup-canonical ((k', v') ∷ m) k v checked found =
    ground (arith, lookup-canonical m k v, eq_iff k' k)

make_snapshot-ok :
    (digest : SelectionArtifactSnapshot → String) (s t : SelectionArtifactSnapshot)
    (identity : Option String)
    → make_snapshot digest s identity ≡ ok t
    → (t.artifact_identity ≡ digest s) × (check_mapping t.cluster_strategy_mapping ≡ ok tt)
unfolding make_snapshot
make_snapshot-ok digest s t identity h = ground arith

checked_command :
    (upper : String → String) (c d : SelectStrategyCommand)
    → check_command upper c ≡ ok d
    → (is_canonical c.symbol ≡ true)
      × (str_eq c.symbol (upper c.symbol) ≡ true)
      × (is_regime_boundary c.boundary_at ≡ true)
      × (is_none (lookup c.artifact_snapshot.cluster_strategy_mapping c.assignment.fingerprint)
          ≡ false)
unfolding check_command
checked_command upper c d h = ground arith

module _ (upper : String → String) (snapshot_digest : SelectionArtifactSnapshot → String) where
  -- A command that its constructor accepts, on a snapshot that its constructor made, fits the
  -- transitions, when the digest of a snapshot is a hexadecimal text of 64 digits.
  pub command-Fits :
      ((s : SelectionArtifactSnapshot) → is_sha256 (snapshot_digest s) ≡ true)
      → (c d : SelectStrategyCommand) (s : SelectionArtifactSnapshot) (identity : Option String)
      → make_snapshot snapshot_digest s identity ≡ ok c.artifact_snapshot
      → check_command upper c ≡ ok d
      → Fits upper c
  command-Fits digest c d s identity made checked =
      let (hashed, mapping) =
        make_snapshot-ok snapshot_digest s c.artifact_snapshot identity made in
      let (symbol, uppercase, boundary, present) = checked_command upper c d checked in
      let m = c.artifact_snapshot.cluster_strategy_mapping in
      elim (Option-cases (lookup m c.assignment.fingerprint)) [
        | inl missing ↦ ground arith
        | inr (strategy, found) ↦
            let (fingerprint, canonical) =
              lookup-canonical m c.assignment.fingerprint strategy mapping found in
            record {
              symbol = symbol;
              uppercase = uppercase;
              boundary = boundary;
              identity = rw hashed (digest s);
              fingerprint = fingerprint;
              strategy = strategy;
              mapped = found;
              strategy_canonical = canonical;
            }
      ]
