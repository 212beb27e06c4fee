-- ===== src/Regime/Store/Queries.antt =====
-- The queries of SqliteRegimeSelectionStateRepository
-- (infrastructure/persistence/repositories/sqlite_regime_selection_state_repository.py).
use gptrader_mw_v.Prelude.{
  Bool, true, false, not, ◌||◌, String, str_eq, Option, none, some, List, [], ◌∷◌, ◌++◌, Result, ok,
  err, value_error, ◌>>=◌, ◌>>◌, refuse_if, is_none, leb, ◌==◌, if◌then◌else◌,
}
use gptrader_mw_v.Regime.Temporal.{Timestamp}
use gptrader_mw_v.Regime.Artifacts.{is_sha256}
use gptrader_mw_v.Regime.Selection.{SelectionEventType, RegimeSelectionState, SelectStrategyResult}
use gptrader_mw_v.Regime.Json.{Library}
use gptrader_mw_v.Regime.Audit.{AuditedSelectStrategyResult}
use gptrader_mw_v.Regime.Payloads.{utc_iso, canonical_symbol}
use Prim.Native.Char.{code}
use gptrader_mw_v.Regime.Rows.{
  StateRow, EventRow, Database, select_state, select_event, state_from_row, result_from_event_row,
  audited_from_event_row,
}

-- The order of texts by code points, which is that of their UTF-8 bytes.
unfoldable pub text_leb : String → String → Bool
text_leb String.[] t = true
text_leb (String.◌∷◌ c s) String.[] = false
text_leb (String.◌∷◌ c s) (String.◌∷◌ d t) =
    let rest = text_leb s t in if code c == code d then rest else leb (code c) (code d)

unfoldable pub insert_event : EventRow → List EventRow → List EventRow
unfolding text_leb
insert_event row [] = row ∷ []
insert_event row (r ∷ rows) =
    let rest = insert_event row rows in
    if text_leb row.boundary_at r.boundary_at then row ∷ r ∷ rows else r ∷ rest

-- `SELECT ... WHERE symbol = ? ORDER BY boundary_at ASC, event_id ASC`
unfoldable pub select_events : List EventRow → String → List EventRow
unfolding insert_event
select_events [] symbol = []
select_events (row ∷ rows) symbol =
    let rest = select_events rows symbol in
    if str_eq row.symbol symbol then insert_event row rest else rest

module _ (library : Library) where
  abbrev pub stored_state : Option StateRow → Result (Option RegimeSelectionState)
  stored_state none = ok none
  stored_state (some row) = do state ← state_from_row library row; ok (some state)

  -- `load`
  unfoldable pub load : String → Database → Result (Option RegimeSelectionState)
  load symbol db = do
    key ← canonical_symbol library symbol
    stored_state (select_state db.states key)

  abbrev pub sha256_text : String → String → Result String
  sha256_text value message = if not (is_sha256 value) then err (value_error message) else ok value

  abbrev pub artifact_error : String
  artifact_error = "evaluated_artifact_identity must be a lowercase SHA256 hash"

  abbrev pub stored_result : Option EventRow → Result (Option SelectStrategyResult)
  stored_result none = ok none
  stored_result (some row) = do result ← result_from_event_row library row; ok (some result)

  -- `find_committed_result`
  unfoldable pub find_committed_result :
      String → Timestamp → String → Database → Result (Option SelectStrategyResult)
  find_committed_result symbol boundary_at identity db = do
    key ← canonical_symbol library symbol
    boundary ← utc_iso library boundary_at
    artifact ← sha256_text identity artifact_error
    stored_result (select_event db.events key boundary artifact)

  abbrev pub stored_audited : Option EventRow → Result (Option AuditedSelectStrategyResult)
  stored_audited none = ok none
  stored_audited (some row) = do
    refuse_if (is_none row.audit_json || is_none row.audit_hash)
        "committed selection is missing its required audit"
    result ← audited_from_event_row library row
    ok (some result)

  -- `find_committed_audited`
  unfoldable pub find_committed_audited :
      String → Timestamp → String → Database → Result (Option AuditedSelectStrategyResult)
  find_committed_audited symbol boundary_at identity db = do
    key ← canonical_symbol library symbol
    boundary ← utc_iso library boundary_at
    artifact ← sha256_text identity artifact_error
    stored_audited (select_event db.events key boundary artifact)

  unfoldable pub events_of_rows : List EventRow → Result (List SelectionEventType)
  events_of_rows [] = ok []
  events_of_rows (row ∷ rows) = do
    result ← result_from_event_row library row
    rest ← events_of_rows rows
    ok (result.events ++ rest)

  -- `list_events`
  unfoldable pub list_events : String → Database → Result (List SelectionEventType)
  unfolding select_events events_of_rows
  list_events symbol db = do
    key ← canonical_symbol library symbol
    events_of_rows (select_events db.events key)
