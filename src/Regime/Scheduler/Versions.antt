-- ===== src/Regime/Scheduler/Versions.antt =====
-- A scheduled selection keeps the versions of the stored states.
use gptrader_mw_v.Prelude.{
  Bool, true, false, inl, inr, Bool-cases, Result-cases, String, Option, none, some, Result, ok,
  err, is_canonical,
}
use gptrader_mw_v.Regime.Temporal.{Timestamp}
use gptrader_mw_v.Regime.Selection.{RegimeSelectionState, SelectStrategyResult}
use gptrader_mw_v.Regime.Json.{Library}
use gptrader_mw_v.Regime.Audit.{AuditedSelectStrategyResult}
use gptrader_mw_v.Regime.Rows.{Database}
use gptrader_mw_v.Regime.Store.{Committed, plain, audited, commit, commit_audited}
use gptrader_mw_v.Regime.Store.Chains.{IsConsistent}
use gptrader_mw_v.Regime.Store.Versions.{commit_with-IsConsistent}
use gptrader_mw_v.Regime.Scheduler.{
  Commands, chosen_plain, chosen_audited, proposal, commit_proposed, propose, reuse_or_propose,
  preflight, attempt, run_selection,
}

chosen_plain-IsConsistent :
    (proposed : Committed) (base : SelectStrategyResult)
    (x : Result SelectStrategyResult × Database)
    → IsConsistent x.1
    → IsConsistent (chosen_plain proposed base x).1
chosen_plain-IsConsistent proposed base (ok r, db) h = h
chosen_plain-IsConsistent proposed base (err e, db) h = h

chosen_audited-IsConsistent :
    (a : AuditedSelectStrategyResult) (x : Result AuditedSelectStrategyResult × Database)
    → IsConsistent x.1
    → IsConsistent (chosen_audited a x).1
chosen_audited-IsConsistent a (ok r, db) h = h
chosen_audited-IsConsistent a (err e, db) h = h

module _ (library : Library) {C : Type 0} (commands : Commands C)
    (execute : C → Result Committed) where
  commit_proposed-IsConsistent :
      (audit : Bool) (proposed : Committed) (base : SelectStrategyResult) (db : Database)
      → IsConsistent db
      → IsConsistent (commit_proposed library commands execute audit proposed base db).1
  unfolding commit_proposed commit commit_audited
  commit_proposed-IsConsistent false proposed base db h =
      chosen_plain-IsConsistent proposed base (commit library base.expected_state_version base db)
        (commit_with-IsConsistent library base.expected_state_version base none db h).0
  commit_proposed-IsConsistent true (plain r) base db h = h
  commit_proposed-IsConsistent true (audited a) base db h =
      chosen_audited-IsConsistent a (commit_audited library base.expected_state_version a db)
        (commit_with-IsConsistent library base.expected_state_version a.base_result
          (some a.audit_record) db h).0

  propose-IsConsistent :
      (command : C) (hash : String) (db : Database)
      → IsConsistent db
      → IsConsistent (propose library commands execute command hash db).1
  unfolding propose
  propose-IsConsistent command hash db h =
      elim (Result-cases (proposal library commands execute command hash)) [
        | inl ((proposed, base), made) ↦
            rw (made, propose)
              (commit_proposed-IsConsistent (commands.requires_audit command) proposed base db h)
        | inr (e, failed) ↦ rw (failed, propose) h
      ]

  reuse_or_propose-IsConsistent :
      (command : C) (hash : String) (existing : Option Committed) (db : Database)
      → IsConsistent db
      → IsConsistent (reuse_or_propose library commands execute command hash existing db).1
  reuse_or_propose-IsConsistent command hash none db h = propose-IsConsistent command hash db h
  reuse_or_propose-IsConsistent command hash (some existing) db h = h

  attempt-IsConsistent :
      (symbol : String) (command_factory : Option RegimeSelectionState → Result C) (db : Database)
      → IsConsistent db
      → IsConsistent (attempt library commands execute symbol command_factory db).1
  unfolding attempt
  attempt-IsConsistent symbol command_factory db h =
      elim (Result-cases (preflight library commands execute symbol command_factory db)) [
        | inl ((command, hash, existing), made) ↦
            rw (made, attempt) (reuse_or_propose-IsConsistent command hash existing db h)
        | inr (e, failed) ↦ rw (failed, attempt) h
      ]

  -- Whatever the selector, the factory and the clock answer, a scheduled selection keeps the history
  -- of every symbol without gaps.
  pub run_selection-IsConsistent :
      (schedule_name symbol : String) (command_factory : Option RegimeSelectionState → Result C)
      (started_at finished_at : Timestamp) (db : Database)
      → IsConsistent db
      → IsConsistent
          (run_selection library commands execute schedule_name symbol command_factory started_at
            finished_at db).1
  unfolding run_selection
  run_selection-IsConsistent schedule_name symbol command_factory started_at finished_at db h =
      elim (Bool-cases (is_canonical schedule_name)) [
        | inl named ↦ rw named (attempt-IsConsistent symbol command_factory db h)
        | inr bad ↦ rw bad h
      ]
