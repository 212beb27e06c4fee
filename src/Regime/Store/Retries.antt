-- ===== src/Regime/Store/Retries.antt =====
-- A second commit at a boundary that has been committed.
use gptrader_mw_v.Prelude.{
  ℕ, suc, ◌≡◌, refl, inl, inr, Bool-cases, String, str_eq, Option, none, some, Result, ok, err,
  value_error, ◌>>=◌, arith, if◌then◌else◌,
}
use gptrader_mw_v.Regime.Selection.{SelectStrategyResult, check_result}
use gptrader_mw_v.Regime.Selection.States.{IsValid}
use gptrader_mw_v.Regime.Json.{Library, array}
use gptrader_mw_v.Regime.Audit.{SelectionAuditRecord}
use gptrader_mw_v.Regime.Payloads.{event_items, state_payload, result_payload}
use gptrader_mw_v.Regime.Payloads.Decoded.{Reads}
use gptrader_mw_v.Regime.Rows.{EventRow, Database, select_event, result_from_event_row}
use gptrader_mw_v.Regime.Store.{
  Committed, plain, Prepared, event_row, replay, transact, commit_with,
}
use gptrader_mw_v.Regime.Store.Commits.{
  Stored, prepared, prepare-prepared, result_from_event_row-stored,
}

-- The same boundary and artifact of a symbol.
pub record SameCoordinates (r t : SelectStrategyResult) : Type 0 where
  pub symbol : t.state.symbol ≡ r.state.symbol
  pub boundary : t.state.last_boundary_at ≡ r.state.last_boundary_at
  pub artifact : t.evaluated_artifact_identity ≡ r.evaluated_artifact_identity

module _ (library : Library) where
  transact-prior :
      (p : Prepared) (expected : ℕ) (t : SelectStrategyResult) (db : Database) (row : EventRow)
      → select_event db.events p.symbol p.boundary_at t.evaluated_artifact_identity ≡ some row
      → transact library p expected t none db
        ≡ (do original ← replay library p none row; ok (db, ok original))
  unfolding transact
  transact-prior p expected t db row selected = rw (selected, transact) refl

  replay_lem :
      (p : Prepared) (row : EventRow) (r : SelectStrategyResult)
      → result_from_event_row library row ≡ ok r
      → replay library p none row ≡ (
          if str_eq row.decision_hash p.decision_hash
          then ok (plain r)
          else err (value_error "conflicting boundary commit"))
  unfolding replay
  replay_lem p row r read = rw read (elim (Bool-cases (str_eq row.decision_hash p.decision_hash)) [
    | inl same ↦ rw same refl
    | inr differs ↦ rw differs refl
  ])

  -- The digest of what is stored for a result.
  abbrev pub decision_hash : SelectStrategyResult → String
  decision_hash r =
      library.sha256 (library.dumps (result_payload r (library.isoformat r.state.last_boundary_at)))

  -- After a result has been stored, with or without an audit, an unaudited commit at its boundary and
  -- artifact changes nothing: it returns the stored result if the digests agree, in particular for the
  -- same result, and refuses the other one as conflicting if they do not. The JSON and ISO texts of the
  -- stored result read back as what was written.
  pub commit_with-again :
      (r t : SelectStrategyResult) (audit : Option SelectionAuditRecord) (db : Database)
      (answer : Result Committed) (v : IsValid library.upper r.state)
      (iso : library.fromisoformat (library.isoformat r.state.last_boundary_at)
        ≡ some r.state.last_boundary_at)
      (state_reads : Reads library
        (state_payload r.state (library.isoformat r.state.last_boundary_at)))
      (accepted : check_result r ≡ ok r)
      (result_reads : Reads library (result_payload r (library.isoformat r.state.last_boundary_at)))
      (event_reads : Reads library (array (event_items r.events)))
      → Stored library r v iso state_reads accepted result_reads event_reads audit db answer
      → IsValid library.upper t.state
      → check_result t ≡ ok t
      → SameCoordinates r t
      → commit_with library t.expected_state_version t none db ≡ (
        (if str_eq (decision_hash r) (decision_hash t)
            then ok (plain r)
            else err (value_error "conflicting boundary commit")),
        db,
      )
  unfolding commit_with check_result
  commit_with-again r t audit db answer v iso state_reads accepted result_reads event_reads stored
        tv taccepted same =
      let row = event_row library (prepared library r v) r.expected_state_version r audit in
      let next : t.state.state_version ≡ suc t.expected_state_version = ground (arith, taccepted) in
      let selected : select_event db.events t.state.symbol
            (library.isoformat t.state.last_boundary_at) t.evaluated_artifact_identity
          ≡ some row =
        rw same.symbol (rw same.boundary (rw same.artifact stored.selected)) in
      let read =
        result_from_event_row-stored library r v iso state_reads accepted result_reads event_reads
          audit in
      rw (prepare-prepared library t tv t.expected_state_version refl next) (
        rw (transact-prior (prepared library t tv) t.expected_state_version t db row selected) (
          rw (replay_lem (prepared library t tv) row r read)
            (elim (Bool-cases (str_eq (decision_hash r) (decision_hash t))) [
              | inl agree ↦ rw agree refl
              | inr differ ↦ rw differ refl
            ])))
