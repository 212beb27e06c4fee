-- ===== src/Regime/Rows.antt =====
-- The tables of SqliteRegimeSelectionStateRepository, and how their rows are read
-- (infrastructure/persistence/repositories/sqlite_regime_selection_state_repository.py). A table is the
-- list of its rows in the order of insertion.
use gptrader_mw_v.Prelude.{
  ℕ, suc, Bool, false, not, ◌&&◌, ◌||◌, String, str_eq, Option, none, some, List, [], ◌∷◌, Result,
  ok, err, Error, value_error, ◌>>=◌, ◌>>◌, refuse_if, ◌==◌, if◌then◌else◌,
}
use gptrader_mw_v.Regime.Selection.{RegimeSelectionState, SelectStrategyResult}
use gptrader_mw_v.Regime.Json.{Library, strict_loads, as_array}
use gptrader_mw_v.Regime.Audit.{AuditedSelectStrategyResult, make_audited, audit_from_json}
use gptrader_mw_v.Regime.Payloads.{same_events, utc_iso, decode_state, decode_result}

-- A row of `regime_selection_states`, less `updated_at`, which nothing reads.
pub record StateRow : Type 0 where
  pub symbol : String
  pub state_version : ℕ
  pub state_json : String
  pub state_hash : String
  pub boundary_at : String

-- A row of `regime_selection_events`; `event_id` is its place.
pub record EventRow : Type 0 where
  pub symbol : String
  pub boundary_at : String
  pub artifact_version : String
  pub expected_version : ℕ
  pub committed_version : ℕ
  pub result_json : String
  pub decision_hash : String
  pub events_json : String
  pub audit_json : Option String
  pub audit_hash : Option String

pub record Database : Type 0 where
  pub states : List StateRow
  pub events : List EventRow

-- `SELECT ... FROM regime_selection_states WHERE symbol = ?`
unfoldable pub select_state : List StateRow → String → Option StateRow
select_state [] symbol = none
select_state (row ∷ rows) symbol =
    let rest = select_state rows symbol in if str_eq row.symbol symbol then some row else rest

abbrev pub is_at : EventRow → String → String → String → Bool
is_at row symbol boundary_at artifact_version =
    str_eq row.symbol symbol
    && str_eq row.boundary_at boundary_at
    && str_eq row.artifact_version artifact_version

-- `SELECT ... FROM regime_selection_events WHERE symbol = ? AND boundary_at = ? AND artifact_version = ?`
unfoldable pub select_event : List EventRow → String → String → String → Option EventRow
select_event [] symbol boundary_at artifact_version = none
select_event (row ∷ rows) symbol boundary_at artifact_version =
    let rest = select_event rows symbol boundary_at artifact_version in
    if is_at row symbol boundary_at artifact_version then some row else rest

-- `UPDATE ... WHERE symbol = ? AND state_version = ?`: the rows, and how many were changed.
unfoldable pub update_states : List StateRow → StateRow → ℕ → List StateRow × ℕ
update_states [] new expected = ([], 0)
update_states (row ∷ rows) new expected =
    let (rest, count) = update_states rows new expected in
    if str_eq row.symbol new.symbol && row.state_version == expected
    then (new ∷ rest, suc count)
    else (row ∷ rest, count)

module _ (library : Library) where
  -- `_state_from_row`
  unfoldable pub state_from_row : StateRow → Result RegimeSelectionState
  state_from_row row = do
    refuse_if (not (str_eq row.state_hash (library.sha256 row.state_json)))
        "selection state integrity check failed"
    payload ← strict_loads library row.state_json "selection state"
    state ← decode_state library payload
    boundary_at ← utc_iso library state.last_boundary_at
    refuse_if
        (not (str_eq state.symbol row.symbol)
          || not (state.state_version == row.state_version)
          || not (str_eq boundary_at row.boundary_at))
        "selection state row does not match its payload"
    ok state

  -- `_result_from_event_row`
  unfoldable pub result_from_event_row : EventRow → Result SelectStrategyResult
  result_from_event_row row = do
    refuse_if (not (str_eq row.decision_hash (library.sha256 row.result_json)))
        "selection decision integrity check failed"
    result ← decode_result library row.result_json
    events ← strict_loads library row.events_json "selection events"
    refuse_if
        (not (elim (as_array events) [
          | none ↦ false
          | some values ↦ same_events values result.events
        ]))
        "selection decision events do not match result"
    boundary_at ← utc_iso library result.state.last_boundary_at
    refuse_if
        (not (str_eq result.state.symbol row.symbol)
          || not (str_eq boundary_at row.boundary_at)
          || not (str_eq result.evaluated_artifact_identity row.artifact_version)
          || not (result.expected_state_version == row.expected_version)
          || not (result.state.state_version == row.committed_version))
        "selection decision coordinate row does not match its payload"
    ok result

  -- `_audited_from_event_row`, once both columns are texts.
  unfoldable pub read_audit :
      SelectStrategyResult → String → String → Result AuditedSelectStrategyResult
  read_audit base audit_json audit_hash = do
    refuse_if (not (str_eq audit_hash (library.sha256 audit_json)))
        "selection audit integrity check failed"
    found ← audit_from_json library audit_json
    refuse_if (not (str_eq found.audit_hash audit_hash))
        "selection audit hash does not match its payload"
    make_audited base found

  abbrev pub read_columns :
      SelectStrategyResult
      → Option String
      → Option String
      → Error
      → Result AuditedSelectStrategyResult
  read_columns base (some audit_json) (some audit_hash) missing =
      read_audit base audit_json audit_hash
  read_columns base _ _ missing = err missing

  unfoldable pub audited_from_event_row : EventRow → Result AuditedSelectStrategyResult
  audited_from_event_row row = do
    base ← result_from_event_row row
    read_columns base row.audit_json row.audit_hash
        (value_error "selection audit integrity check failed")
