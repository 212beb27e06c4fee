-- ===== src/Regime/Scheduler.antt =====
-- RegimeSelectionScheduler (interfaces/scheduler/regime_selection_scheduler.py), over the repository of
-- Regime/Store. The selector, the factory of its commands and the clock are arguments; a command is of
-- any type, with the attributes that the scheduler reads. Checks of classes are left out.
pub mod Versions
pub mod Retries
use gptrader_mw_v.Prelude.{
  ℕ, Bool, true, false, not, ◌&&◌, ◌||◌, String, str_eq, Option, none, some, List, [], ◌∷◌, Result,
  ok, err, Error, value_error, ◌>>=◌, ◌>>◌, refuse_if, is_none, is_canonical, ltb, ◌==◌,
  if◌then◌else◌,
}
use gptrader_mw_v.Regime.Temporal.{Timestamp}
use gptrader_mw_v.Regime.Artifacts.{option_eq, is_sha256, xor}
use gptrader_mw_v.Regime.Selection.{
  SelectionEventType, event_eq, no_events, RegimeSelectionState, SelectStrategyResult,
}
use gptrader_mw_v.Regime.Json.{Library}
use gptrader_mw_v.Regime.Audit.{AuditedSelectStrategyResult, audit_eq}
use gptrader_mw_v.Regime.Rows.{Database}
use gptrader_mw_v.Regime.Store.{Committed, plain, audited, commit, commit_audited}
use gptrader_mw_v.Regime.Store.Queries.{load, find_committed_result, find_committed_audited}

-- What the scheduler reads of a command. `input_hash` is `selection_command_input_hash` for a
-- SelectStrategyCommand, and else the attribute `selection_input_hash`, with its check.
pub record Commands (C : Type 0) : Type 0 where
  pub symbol : C → String
  pub boundary_at : C → Timestamp
  pub artifact_identity : C → String
  pub input_hash : C → Result String
  pub requires_audit : C → Bool

-- `_command_input_hash` for a command that carries its digest.
unfoldable pub command_input_hash : String → Result String
command_input_hash value =
    if not (is_sha256 value)
    then err (value_error "selection command must expose a lowercase SHA256 input hash")
    else ok value

-- Equality of dataclasses.
abbrev pub state_eq : RegimeSelectionState → RegimeSelectionState → Bool
state_eq s t =
    str_eq s.symbol t.symbol
    && str_eq s.artifact_version t.artifact_version
    && option_eq s.current_cluster_fingerprint t.current_cluster_fingerprint
    && option_eq s.active_strategy_profile_id t.active_strategy_profile_id
    && option_eq s.pending_cluster_fingerprint t.pending_cluster_fingerprint
    && s.pending_confirmation_count == t.pending_confirmation_count
    && s.consecutive_low_confidence_count == t.consecutive_low_confidence_count
    && not (xor s.new_entries_enabled t.new_entries_enabled)
    && s.last_boundary_at.instant == t.last_boundary_at.instant
    && s.state_version == t.state_version
    && option_eq s.pending_artifact_version t.pending_artifact_version

unfoldable pub events_eq : List SelectionEventType → List SelectionEventType → Bool
events_eq [] [] = true
events_eq [] (e ∷ es) = false
events_eq (d ∷ ds) [] = false
events_eq (d ∷ ds) (e ∷ es) = event_eq d e && events_eq ds es

unfoldable pub result_eq : SelectStrategyResult → SelectStrategyResult → Bool
unfolding events_eq
result_eq r t =
    r.expected_state_version == t.expected_state_version
    && state_eq r.state t.state
    && events_eq r.events t.events
    && str_eq r.evaluated_artifact_identity t.evaluated_artifact_identity
    && str_eq r.selection_input_hash t.selection_input_hash

-- The canonical part of a result.
abbrev pub base_of : Committed → SelectStrategyResult
base_of (plain r) = r
base_of (audited a) = a.base_result

-- `_base_result`
unfoldable pub base_result : Committed → Result SelectStrategyResult
base_result proposed = do
  refuse_if (no_events (base_of proposed).events) "selection result events must be canonical"
  ok (base_of proposed)

pub record ScheduledRegimeSelection : Type 0 where
  pub schedule_name : String
  pub started_at : Timestamp
  pub finished_at : Timestamp
  pub outcome : Result Committed

abbrev pub check_outcome : Result Committed → Result (Unit {0})
check_outcome (ok result) = do base ← base_result result; ok tt
check_outcome (err e) = ok tt

-- `ScheduledRegimeSelection.__post_init__`; a run has a result or an error, never both.
unfoldable pub make_scheduled :
    String → Timestamp → Timestamp → Result Committed → Result ScheduledRegimeSelection
make_scheduled schedule_name started_at finished_at outcome = do
  refuse_if (not (is_canonical schedule_name)) "schedule_name must be a nonempty canonical string"
  refuse_if (not started_at.is_utc || not finished_at.is_utc)
      "scheduler timestamps must use canonical UTC"
  refuse_if (ltb finished_at.instant started_at.instant) "finished_at cannot precede started_at"
  check_outcome outcome
  ok (record {
    schedule_name = schedule_name;
    started_at = started_at;
    finished_at = finished_at;
    outcome = outcome;
  })

-- A step on the database that may raise.
abbrev pub Step : Type 0 → Type 0
Step A = Database → Result A × Database

abbrev pub as_plain : Result (Option SelectStrategyResult) → Result (Option Committed)
as_plain (ok none) = ok none
as_plain (ok (some r)) = ok (some (plain r))
as_plain (err e) = err e

abbrev pub as_audited : Result (Option AuditedSelectStrategyResult) → Result (Option Committed)
as_audited (ok none) = ok none
as_audited (ok (some a)) = ok (some (audited a))
as_audited (err e) = err e

-- What stands in `result` after a commit: the proposal itself where the two are equal.
abbrev pub chosen_plain :
    Committed
    → SelectStrategyResult
    → Result SelectStrategyResult × Database
    → Result Committed × Database
chosen_plain proposed base (ok stored, db) =
    (ok (if result_eq stored base then proposed else plain stored), db)
chosen_plain proposed base (err e, db) = (err e, db)

abbrev pub chosen_audited :
    AuditedSelectStrategyResult
    → Result AuditedSelectStrategyResult × Database
    → Result Committed × Database
chosen_audited proposed (ok stored, db) = (
  ok (
      audited (
        if result_eq stored.base_result proposed.base_result
          && audit_eq stored.audit_record proposed.audit_record
        then proposed
        else stored)),
  db,
)
chosen_audited proposed (err e, db) = (err e, db)

module _ (library : Library) {C : Type 0} (commands : Commands C)
    (execute : C → Result Committed) where
  -- The look-up of what has been committed for the command.
  unfoldable pub find_existing : C → String → Database → Result (Option Committed)
  find_existing command symbol db =
      if commands.requires_audit command
      then as_audited (
          find_committed_audited library symbol (commands.boundary_at command)
            (commands.artifact_identity command) db)
      else as_plain (
          find_committed_result library symbol (commands.boundary_at command)
            (commands.artifact_identity command) db)

  -- The commit of a proposal.
  unfoldable pub commit_proposed : Bool → Committed → SelectStrategyResult → Step Committed
  commit_proposed false proposed base db =
      chosen_plain proposed base (commit library base.expected_state_version base db)
  commit_proposed true (plain r) base db =
      (err (value_error "audited selection must return an audited result"), db)
  commit_proposed true (audited a) base db =
      chosen_audited a (commit_audited library base.expected_state_version a db)

  -- The selector and the checks of its answer.
  unfoldable pub proposal : C → String → Result (Committed × SelectStrategyResult)
  proposal command input_hash = do
    proposed ← execute command
    base ← base_result proposed
    refuse_if (not (str_eq base.selection_input_hash input_hash))
        "selection result input hash does not match command"
    ok (proposed, base)

  -- The selector and the commit.
  unfoldable pub propose : C → String → Step Committed
  propose command input_hash db = elim (proposal command input_hash) [
    | err e ↦ (err e, db)
    | ok (proposed, base) ↦ commit_proposed (commands.requires_audit command) proposed base db
  ]

  abbrev pub reuse_or_propose : C → String → Option Committed → Step Committed
  reuse_or_propose command input_hash (some existing) db = (
    if not (str_eq (base_of existing).selection_input_hash input_hash)
        then err (value_error "conflicting boundary commit")
        else ok existing,
    db,
  )
  reuse_or_propose command input_hash none db = propose command input_hash db

  -- The attributes of the command, and what has been committed for it.
  unfoldable pub preflight :
      String
      → (Option RegimeSelectionState → Result C)
      → Database
      → Result (C × String × Option Committed)
  preflight symbol command_factory db = do
    previous_state ← load library symbol db
    command ← command_factory previous_state
    refuse_if (not (str_eq (commands.symbol command) symbol))
        "selection command symbol must match scheduler symbol"
    input_hash ← commands.input_hash command
    existing ← find_existing command symbol db
    ok (command, input_hash, existing)

  -- The `try` block of `run_selection`.
  unfoldable pub attempt : String → (Option RegimeSelectionState → Result C) → Step Committed
  attempt symbol command_factory db = elim (preflight symbol command_factory db) [
    | err e ↦ (err e, db)
    | ok (command, input_hash, existing) ↦ reuse_or_propose command input_hash existing db
  ]

  -- `run_selection`, at two readings of the clock.
  unfoldable pub run_selection :
      String
      → String
      → (Option RegimeSelectionState → Result C)
      → Timestamp
      → Timestamp
      → Step ScheduledRegimeSelection
  run_selection schedule_name symbol command_factory started_at finished_at db =
      if not (is_canonical schedule_name)
      then (err (value_error "schedule_name must be a nonempty canonical string"), db)
      else (let (outcome, db') = attempt symbol command_factory db in
          (make_scheduled schedule_name started_at finished_at outcome, db'))
