-- ===== src/Regime/Scheduler/Retries.antt =====
-- Repeated scheduled selections.
use gptrader_mw_v.Prelude.{
  true, false, ◌≡◌, refl, inl, inr, Bool-cases, String, eq_refl, Option, none, Result, ok,
  is_canonical, arith,
}
use gptrader_mw_v.Regime.Temporal.{Timestamp}
use gptrader_mw_v.Regime.Selection.{
  RegimeSelectionState, SelectStrategyResult, check_result, no_events,
}
use gptrader_mw_v.Regime.Json.{Library}
use gptrader_mw_v.Regime.Rows.{Database}
use gptrader_mw_v.Regime.Store.{Committed, plain, commit, commit_with}
use gptrader_mw_v.Regime.Store.Queries.{load, find_committed_result}
use gptrader_mw_v.Regime.Scheduler.{
  Commands, find_existing, base_result, result_eq, chosen_plain, proposal, commit_proposed, propose,
  preflight, attempt, make_scheduled, run_selection,
}

module _ (library : Library) {C : Type 0} (commands : Commands C)
    (execute : C → Result Committed) where
  -- A command for a result that has been made: its coordinates and its input, and no audit.
  pub record Repeats (r : SelectStrategyResult) (command : C) : Type 0 where
    pub symbol : commands.symbol command ≡ r.state.symbol
    pub boundary : commands.boundary_at command ≡ r.state.last_boundary_at
    pub artifact : commands.artifact_identity command ≡ r.evaluated_artifact_identity
    pub input : commands.input_hash command ≡ ok r.selection_input_hash
    pub unaudited : commands.requires_audit command ≡ false

  find_existing-none :
      (r : SelectStrategyResult) (command : C) (db : Database)
      → Repeats r command
      → find_committed_result library r.state.symbol r.state.last_boundary_at
          r.evaluated_artifact_identity db
        ≡ ok none
      → find_existing library commands execute command r.state.symbol db ≡ ok none
  unfolding find_existing
  find_existing-none r command db same absent =
      rw same.unaudited (rw same.boundary (rw same.artifact (rw absent refl)))

  -- What the selector answers is accepted for a command of its input.
  proposal-accepted :
      (r : SelectStrategyResult) (command : C)
      → check_result r ≡ ok r
      → execute command ≡ ok (plain r)
      → proposal library commands execute command r.selection_input_hash ≡ ok (plain r, r)
  unfolding proposal base_result check_result
  proposal-accepted r command accepted made =
      let has_events : no_events r.events ≡ false = ground (arith, accepted) in
      rw made (rw has_events (rw (eq_refl r.selection_input_hash) refl))

  chosen_plain-same :
      (r : SelectStrategyResult) (db : Database)
      → chosen_plain (plain r) r (ok r, db) ≡ (ok (plain r), db)
  chosen_plain-same r db = elim (Bool-cases (result_eq r r)) [
    | inl same ↦ rw same refl
    | inr differs ↦ rw differs refl
  ]

  preflight-none :
      (command_factory : Option RegimeSelectionState → Result C) (db : Database) (command : C)
      (r : SelectStrategyResult) (previous : Option RegimeSelectionState)
      → load library r.state.symbol db ≡ ok previous
      → command_factory previous ≡ ok command
      → Repeats r command
      → find_committed_result library r.state.symbol r.state.last_boundary_at
          r.evaluated_artifact_identity db
        ≡ ok none
      → preflight library commands execute r.state.symbol command_factory db
        ≡ ok (command, r.selection_input_hash, none)
  unfolding preflight
  preflight-none command_factory db command r previous loaded made same absent = rw loaded (
      rw made (
        rw same.symbol (
          rw (eq_refl r.state.symbol)
            (rw same.input (rw (find_existing-none r command db same absent) refl)))))

  propose-committed :
      (db : Database) (command : C) (r : SelectStrategyResult)
      → Repeats r command
      → check_result r ≡ ok r
      → execute command ≡ ok (plain r)
      → (commit_with library r.expected_state_version r none db).0 ≡ ok (plain r)
      → propose library commands execute command r.selection_input_hash db
        ≡ (ok (plain r), (commit_with library r.expected_state_version r none db).1)
  unfolding propose commit_proposed commit
  propose-committed db command r same accepted proposed stored =
      let db' = (commit_with library r.expected_state_version r none db).1 in
      rw (proposal-accepted r command accepted proposed, propose)
        (rw same.unaudited (rw stored (chosen_plain-same r db')))

  -- A new result is committed and given.
  pub run_selection-committed :
      (schedule_name : String) (command_factory : Option RegimeSelectionState → Result C)
      (started_at finished_at : Timestamp) (db : Database) (command : C) (r : SelectStrategyResult)
      (previous : Option RegimeSelectionState)
      → is_canonical schedule_name ≡ true
      → load library r.state.symbol db ≡ ok previous
      → command_factory previous ≡ ok command
      → Repeats r command
      → find_committed_result library r.state.symbol r.state.last_boundary_at
          r.evaluated_artifact_identity db
        ≡ ok none
      → check_result r ≡ ok r
      → execute command ≡ ok (plain r)
      → (commit_with library r.expected_state_version r none db).0 ≡ ok (plain r)
      → run_selection library commands execute schedule_name r.state.symbol command_factory
          started_at finished_at db
        ≡ (
          make_scheduled schedule_name started_at finished_at (ok (plain r)),
          (commit_with library r.expected_state_version r none db).1,
        )
  unfolding run_selection attempt
  run_selection-committed schedule_name command_factory started_at finished_at db command r previous
        named loaded made same absent accepted proposed stored =
      rw named (
        rw (preflight-none command_factory db command r previous loaded made same absent, attempt)
          (rw (propose-committed db command r same accepted proposed stored) refl))
