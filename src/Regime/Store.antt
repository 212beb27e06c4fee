-- ===== src/Regime/Store.antt =====
-- SqliteRegimeSelectionStateRepository
-- (infrastructure/persistence/repositories/sqlite_regime_selection_state_repository.py). A transaction is
-- exclusive (BEGIN IMMEDIATE), so an operation is a function on the database; sqlite3 itself is taken
-- not to fail.
pub mod Queries
pub mod Chains
pub mod Versions
pub mod Commits
pub mod Retries
use gptrader_mw_v.Prelude.{
  ℕ, suc, Bool, true, false, not, ◌&&◌, ◌||◌, String, str_eq, Option, none, some, List, [], ◌∷◌,
  ◌++◌, Result, ok, err, Error, value_error, runtime_error, concurrent_error, ◌>>=◌, ◌>>◌,
  refuse_if, or_raise, is_none, leb, ◌==◌, if◌then◌else◌,
}
use gptrader_mw_v.Regime.Temporal.{Timestamp}
use gptrader_mw_v.Regime.Artifacts.{is_sha256}
use gptrader_mw_v.Regime.Selection.{SelectionEventType, RegimeSelectionState, SelectStrategyResult}
use gptrader_mw_v.Regime.Json.{Json, array, Library, strict_loads, as_array}
use gptrader_mw_v.Regime.Audit.{
  SelectionAuditRecord, AuditedSelectStrategyResult, make_audited, audit_from_json, audit_eq,
}
use gptrader_mw_v.Regime.Payloads.{
  event_items, same_events, utc_iso, canonical_symbol, state_payload, result_payload, decode_state,
  decode_result,
}
use Prim.Native.Char.{code}
use Prim.Native.String
use gptrader_mw_v.Regime.Rows.{
  StateRow, EventRow, Database, select_state, is_at, select_event, update_states, state_from_row,
  result_from_event_row, audited_from_event_row,
}

-- What a commit returns: the result, or the result with its audit.
pub data Committed : Type 0 where
  plain : SelectStrategyResult → Committed
  audited : AuditedSelectStrategyResult → Committed

-- The texts that `_commit` computes before the transaction.
pub record Prepared : Type 0 where
  pub symbol : String
  pub boundary_at : String
  pub result_json : String
  pub decision_hash : String
  pub events_json : String
  pub state_json : String
  pub state_hash : String

abbrev pub text_differs : Option String → String → Bool
text_differs none t = true
text_differs (some s) t = not (str_eq s t)

abbrev pub json_column : Option SelectionAuditRecord → Option String
json_column none = none
json_column (some audit) = some audit.canonical_json

abbrev pub hash_column : Option SelectionAuditRecord → Option String
hash_column none = none
hash_column (some audit) = some audit.audit_hash

module _ (library : Library) where
  -- The first half of `_commit`.
  unfoldable pub prepare : ℕ → SelectStrategyResult → Result Prepared
  prepare expected result = do
    refuse_if (not (result.expected_state_version == expected))
        "result expected_state_version must match commit argument"
    refuse_if (not (result.state.state_version == suc expected))
        "result state_version must increment expected_state_version"
    symbol ← canonical_symbol library result.state.symbol
    boundary_at ← utc_iso library result.state.last_boundary_at
    let result_json = library.dumps (result_payload result boundary_at)
    let state_json = library.dumps (state_payload result.state boundary_at)
    ok (record {
      symbol = symbol;
      boundary_at = boundary_at;
      result_json = result_json;
      decision_hash = library.sha256 result_json;
      events_json = library.dumps (array (event_items result.events));
      state_json = state_json;
      state_hash = library.sha256 state_json;
    })

  abbrev pub replay_audit :
      Option SelectionAuditRecord → EventRow → SelectStrategyResult → Result Committed
  replay_audit none prior original = ok (plain original)
  replay_audit (some audit) prior original = do
    refuse_if (is_none prior.audit_json || is_none prior.audit_hash)
        "conflicting boundary commit: required audit is missing"
    found ← audited_from_event_row library prior
    refuse_if (not (audit_eq found.audit_record audit)) "conflicting boundary commit: audit differs"
    ok (audited found)

  -- The branch of `_commit` for a boundary that has been committed before.
  unfoldable pub replay : Prepared → Option SelectionAuditRecord → EventRow → Result Committed
  replay p audit prior = do
    original ← result_from_event_row library prior
    refuse_if (not (str_eq prior.decision_hash p.decision_hash)) "conflicting boundary commit"
    replay_audit audit prior original

  -- The version of the stored state, which must be older than the result.
  unfoldable pub current_version : Option StateRow → SelectStrategyResult → Result ℕ
  current_version none result = ok 0
  current_version (some row) result = do
    state ← state_from_row library row
    refuse_if (leb result.state.last_boundary_at.instant state.last_boundary_at.instant)
        "selection boundary must be strictly after current state"
    ok state.state_version

  abbrev pub state_row : Prepared → SelectStrategyResult → StateRow
  state_row p result = record {
    symbol = p.symbol;
    state_version = result.state.state_version;
    state_json = p.state_json;
    state_hash = p.state_hash;
    boundary_at = p.boundary_at;
  }

  abbrev pub event_row :
      Prepared → ℕ → SelectStrategyResult → Option SelectionAuditRecord → EventRow
  event_row p expected result audit = record {
    symbol = p.symbol;
    boundary_at = p.boundary_at;
    artifact_version = result.evaluated_artifact_identity;
    expected_version = expected;
    committed_version = result.state.state_version;
    result_json = p.result_json;
    decision_hash = p.decision_hash;
    events_json = p.events_json;
    audit_json = json_column audit;
    audit_hash = hash_column audit;
  }

  -- INSERT or UPDATE of the state, and the test of `rowcount`.
  unfoldable pub write_state :
      Option StateRow → List StateRow → StateRow → ℕ → Result (List StateRow)
  write_state none rows new expected = ok (rows ++ new ∷ [])
  write_state (some current) rows new expected =
      let (updated, count) = update_states rows new expected in
      if not (count == 1) then err concurrent_error else ok updated

  abbrev pub committed : SelectStrategyResult → Option SelectionAuditRecord → Result Committed
  committed result none = ok (plain result)
  committed result (some audit) = do both ← make_audited result audit; ok (audited both)

  -- The branch of `_commit` for a new boundary. No row of the events has its coordinates, so the
  -- UNIQUE constraint holds.
  unfoldable pub commit_new :
      Prepared
      → ℕ
      → SelectStrategyResult
      → Option SelectionAuditRecord
      → Database
      → Result (Database × Result Committed)
  commit_new p expected result audit db = do
    let current = select_state db.states p.symbol
    version ← current_version current result
    if not (version == expected) then err concurrent_error else ok tt
    states ← write_state current db.states (state_row p result) expected
    ok (
      record { states = states; events = db.events ++ event_row p expected result audit ∷ [] },
      committed result audit,
    )

  -- The transaction of `_commit`: what it leaves in the database, and what is returned or raised.
  unfoldable pub transact :
      Prepared
      → ℕ
      → SelectStrategyResult
      → Option SelectionAuditRecord
      → Database
      → Result (Database × Result Committed)
  transact p expected result audit db =
      elim (select_event db.events p.symbol p.boundary_at result.evaluated_artifact_identity) [
        | none ↦ commit_new p expected result audit db
        | some prior ↦ do original ← replay p audit prior; ok (db, ok original)
      ]

  -- `except Exception: rollback; raise`
  abbrev pub or_rollback :
      Database → Result (Database × Result Committed) → Result Committed × Database
  or_rollback db (ok (db', answer)) = (answer, db')
  or_rollback db (err e) = (err e, db)

  -- `_commit`
  unfoldable pub commit_with :
      ℕ
      → SelectStrategyResult
      → Option SelectionAuditRecord
      → Database
      → Result Committed × Database
  commit_with expected result audit db =
      or_rollback db (do p ← prepare expected result; transact p expected result audit db)

  abbrev pub only_plain : Result Committed → Result SelectStrategyResult
  only_plain (ok (plain result)) = ok result
  only_plain (ok (audited both)) = ok both.base_result
  only_plain (err e) = err e

  abbrev pub only_audited : Result Committed → Result AuditedSelectStrategyResult
  only_audited (ok (plain result)) =
      err (runtime_error "audited commit did not return its audit envelope")
  only_audited (ok (audited both)) = ok both
  only_audited (err e) = err e

  -- `commit`, for which `_commit` returns a plain result.
  unfoldable pub commit :
      ℕ → SelectStrategyResult → Database → Result SelectStrategyResult × Database
  commit expected result db =
      let (answer, db') = commit_with expected result none db in (only_plain answer, db')

  -- `commit_audited`
  unfoldable pub commit_audited :
      ℕ → AuditedSelectStrategyResult → Database → Result AuditedSelectStrategyResult × Database
  commit_audited expected result db =
      let (answer, db') = commit_with expected result.base_result (some result.audit_record) db in
      (only_audited answer, db')
