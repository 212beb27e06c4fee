-- ===== src/Regime/Store/Commits.antt =====
-- A new decision is stored: what a commit writes, `load` and the queries read.
use gptrader_mw_v.Prelude.{
  ℕ, suc, true, ◌≡◌, refl, sym, subst, ap, ◌∙◌, inl, inr, String, eq_refl, Option, none, some, List,
  [], ◌∷◌, ◌++◌, Result, ok, OnOk, Result-cases, Option-cases, is_canonical, ◌==◌, arith,
}
use gptrader_mw_v.Regime.Selection.{SelectStrategyResult, check_result}
use gptrader_mw_v.Regime.Selection.States.{IsValid}
use gptrader_mw_v.Regime.Json.{Library, array}
use gptrader_mw_v.Regime.Audit.{SelectionAuditRecord}
use gptrader_mw_v.Regime.Temporal.{is_regime_boundary}
use gptrader_mw_v.Regime.Artifacts.{is_sha256}
use gptrader_mw_v.Regime.Payloads.{
  event_items, utc_iso, canonical_symbol, state_payload, result_payload,
}
use gptrader_mw_v.Regime.Payloads.Decoded.{
  Reads, strict_loads-dumps, check_hooks-state, check_hooks-events, same_events-items,
  decode_state-payload, decode_result-encode,
}
use gptrader_mw_v.Regime.Rows.{
  EventRow, Database, select_state, select_event, state_from_row, result_from_event_row,
}
use gptrader_mw_v.Regime.Store.{
  Committed, Prepared, prepare, state_row, event_row, committed, commit_new, transact, or_rollback,
  commit_with,
}
use gptrader_mw_v.Regime.Store.Versions.{Written, commit_new-Written}
use gptrader_mw_v.Regime.Store.Queries.{load, stored_state, stored_result, find_committed_result}

select_event-append :
    (rows : List EventRow) (new : EventRow)
    → select_event rows new.symbol new.boundary_at new.artifact_version ≡ none
    → select_event (rows ++ new ∷ []) new.symbol new.boundary_at new.artifact_version ≡ some new
unfolding select_event
select_event-append [] new h =
    ground (arith, eq_refl new.symbol, eq_refl new.boundary_at, eq_refl new.artifact_version)
select_event-append (row ∷ rows) new h = ground (arith, select_event-append rows new)

module _ (library : Library) (r : SelectStrategyResult) (v : IsValid library.upper r.state) where
  utc-boundary : r.state.last_boundary_at.is_utc ≡ true
  unfolding is_regime_boundary
  utc-boundary = ground (arith, v.boundary)

  -- The text of the boundary.
  abbrev pub boundary_text : String
  boundary_text = library.isoformat r.state.last_boundary_at

  utc_iso-boundary : utc_iso library r.state.last_boundary_at ≡ ok boundary_text
  unfolding utc_iso
  utc_iso-boundary = rw utc-boundary refl

  canonical_symbol-symbol : canonical_symbol library r.state.symbol ≡ ok r.state.symbol
  unfolding canonical_symbol is_canonical
  canonical_symbol-symbol = ground (arith, v.symbol, v.uppercase)

  -- What `prepare` computes for the result.
  abbrev pub prepared : Prepared
  prepared =
      let result_json = library.dumps (result_payload r boundary_text) in
      let state_json = library.dumps (state_payload r.state boundary_text) in
      record {
        symbol = r.state.symbol;
        boundary_at = boundary_text;
        result_json = result_json;
        decision_hash = library.sha256 result_json;
        events_json = library.dumps (array (event_items r.events));
        state_json = state_json;
        state_hash = library.sha256 state_json;
      }

  prepare-guards :
      (expected : ℕ) (p : Prepared)
      → prepare library expected r ≡ ok p
      → (r.expected_state_version ≡ expected) × (r.state.state_version ≡ suc expected)
  unfolding prepare
  prepare-guards expected p h = ground arith

  pub prepare-prepared :
      (expected : ℕ)
      → r.expected_state_version ≡ expected
      → r.state.state_version ≡ suc expected
      → prepare library expected r ≡ ok prepared
  unfolding prepare
  prepare-prepared expected h k =
      let same : (r.expected_state_version == expected) ≡ true = ground arith in
      let next : (r.state.state_version == suc expected) ≡ true = ground arith in
      rw same (rw next (rw canonical_symbol-symbol (rw utc_iso-boundary refl)))

  module _ (iso : library.fromisoformat boundary_text ≡ some r.state.last_boundary_at)
      (state_reads : Reads library (state_payload r.state boundary_text)) where
    state_from_row-stored : state_from_row library (state_row library prepared r) ≡ ok r.state
    unfolding state_from_row
    state_from_row-stored =
        rw (eq_refl (library.sha256 (library.dumps (state_payload r.state boundary_text)))) (
          rw
            (strict_loads-dumps library "selection state" (state_payload r.state boundary_text)
              state_reads (check_hooks-state library "selection state" r.state boundary_text))
            (rw (decode_state-payload library r.state boundary_text v iso) (
              rw utc_iso-boundary
                (rw (eq_refl r.state.symbol) (rw (eq_refl boundary_text) (ground arith))))))

    module _ (accepted : check_result r ≡ ok r)
        (result_reads : Reads library (result_payload r boundary_text))
        (event_reads : Reads library (array (event_items r.events))) where
      pub result_from_event_row-stored :
          (audit : Option SelectionAuditRecord)
          → result_from_event_row library
              (event_row library prepared r.expected_state_version r audit)
            ≡ ok r
      unfolding result_from_event_row
      result_from_event_row-stored audit =
          rw (eq_refl (library.sha256 (library.dumps (result_payload r boundary_text)))) (
            rw (decode_result-encode library r boundary_text v accepted iso result_reads) (
              rw
                (strict_loads-dumps library "selection events" (array (event_items r.events))
                  event_reads (check_hooks-events library "selection events" r.events))
                (rw (same_events-items r.events) (
                  rw utc_iso-boundary (
                    rw (eq_refl r.state.symbol) (
                      rw (eq_refl boundary_text)
                        (rw (eq_refl r.evaluated_artifact_identity) (ground arith))))))))

      result-sha256 : is_sha256 r.evaluated_artifact_identity ≡ true
      unfolding check_result
      result-sha256 = ground (arith, accepted)

      -- The query at the coordinates of the result is the SELECT of the transaction.
      find-select :
          (db : Database) (o : Option EventRow)
          → select_event db.events r.state.symbol boundary_text r.evaluated_artifact_identity ≡ o
          → find_committed_result library r.state.symbol r.state.last_boundary_at
              r.evaluated_artifact_identity db
            ≡ stored_result library o
      unfolding find_committed_result
      find-select db o selected =
          rw (canonical_symbol-symbol, find_committed_result)
            (rw utc_iso-boundary (rw result-sha256 (ap (stored_result library) selected)))

      none-select :
          (db : Database)
          → find_committed_result library r.state.symbol r.state.last_boundary_at
              r.evaluated_artifact_identity db
            ≡ ok none
          → select_event db.events r.state.symbol boundary_text r.evaluated_artifact_identity ≡ none
      none-select db absent =
          elim (Option-cases
            (select_event db.events r.state.symbol boundary_text r.evaluated_artifact_identity)) [
              | inl missing ↦ missing
              | inr (row, selected) ↦ elim (Result-cases (result_from_event_row library row)) [
                | inl (result, read) ↦ ground (arith, find-select db (some row) selected)
                | inr (e, failed) ↦ ground (arith, find-select db (some row) selected)
              ]
            ]

      load-written :
          (db : Database)
          → select_state db.states r.state.symbol ≡ some (state_row library prepared r)
          → load library r.state.symbol db ≡ ok (some r.state)
      unfolding load
      load-written db selected =
          rw canonical_symbol-symbol
            (ap (stored_state library) selected ∙ rw state_from_row-stored refl)

      -- The database that a new commit leaves.
      pub record Stored (audit : Option SelectionAuditRecord) (db' : Database)
          (answer : Result Committed) : Type 0 where
        pub loaded : load library r.state.symbol db' ≡ ok (some r.state)
        pub found :
            find_committed_result library r.state.symbol r.state.last_boundary_at
              r.evaluated_artifact_identity db'
            ≡ ok (some r)
        pub answered : answer ≡ committed library r audit
        pub selected :
            select_event db'.events r.state.symbol boundary_text r.evaluated_artifact_identity
            ≡ some (event_row library prepared r.expected_state_version r audit)

      Written-Stored :
          (audit : Option SelectionAuditRecord) (db db' : Database) (answer : Result Committed)
          → select_event db.events r.state.symbol boundary_text r.evaluated_artifact_identity ≡ none
          → Written library prepared r.expected_state_version r audit db db' answer
          → Stored audit db' answer
      Written-Stored audit db db' answer missing w =
          let row = event_row library prepared r.expected_state_version r audit in
          let selected : select_event db'.events r.state.symbol boundary_text
                r.evaluated_artifact_identity
              ≡ some row =
            rw w.events (select_event-append db.events row missing) in
          record {
            loaded = load-written db' (w.states r.state.symbol ∙ rw (eq_refl r.state.symbol) refl);
            found =
                find-select db' (some row) selected ∙ rw (result_from_event_row-stored audit) refl;
            answered = w.answered;
            selected = selected;
          }

      -- The transaction at a new boundary, from the version that the result expects.
      commit_with-new :
          (audit : Option SelectionAuditRecord) (db : Database)
          → select_event db.events r.state.symbol boundary_text r.evaluated_artifact_identity ≡ none
          → r.state.state_version ≡ suc r.expected_state_version
          → commit_with library r.expected_state_version r audit db
            ≡ or_rollback library db
                (commit_new library prepared r.expected_state_version r audit db)
      unfolding commit_with transact
      commit_with-new audit db missing next =
          rw (prepare-prepared r.expected_state_version refl next) (rw (missing, transact) refl)

      Stored-after :
          (audit : Option SelectionAuditRecord) (db : Database) (answer : Committed)
          → select_event db.events r.state.symbol boundary_text r.evaluated_artifact_identity ≡ none
          → (or_rollback library db
              (commit_new library prepared r.expected_state_version r audit db)).0
            ≡ ok answer
          → let run =
              or_rollback library db
                (commit_new library prepared r.expected_state_version r audit db) in
            Stored audit run.1 run.0
      Stored-after audit db answer missing returned =
          elim (Result-cases (commit_new library prepared r.expected_state_version r audit db)) [
            | inr (e, failed) ↦ absurd (ground (arith, failed))
            | inl ((db', ans), made) ↦ rw made (
                Written-Stored audit db db' ans missing (
                  subst
                    (OnOk (λ (written : Database × Result Committed).
                      Written library prepared r.expected_state_version r audit db written.0
                        written.1))
                    made (commit_new-Written library prepared r.expected_state_version r audit db)))
          ]

      pub commit_with-Stored :
          (audit : Option SelectionAuditRecord) (db : Database) (answer : Committed)
          → find_committed_result library r.state.symbol r.state.last_boundary_at
              r.evaluated_artifact_identity db
            ≡ ok none
          → (commit_with library r.expected_state_version r audit db).0 ≡ ok answer
          → let run = commit_with library r.expected_state_version r audit db in
            Stored audit run.1 run.0
      unfolding check_result
      commit_with-Stored audit db answer absent returned =
          let missing = none-select db absent in
          let run = commit_with-new audit db missing (ground (arith, accepted)) in
          subst (λ (x : Result Committed × Database). Stored audit x.1 x.0) (sym run)
            (Stored-after audit db answer missing
              (subst (λ (x : Result Committed × Database). x.0 ≡ ok answer) run returned))
