-- ===== src/Regime/Store/Versions.antt =====
-- The versions of the stored states, and the events that are kept.
use gptrader_mw_v.Prelude.{
  ℕ, suc, ◌≡◌, refl, sym, subst, ◌⊎◌, inl, inr, String, str_eq, eq_iff, Option, none, some, List,
  [], ◌∷◌, ◌++◌, Result, ok, err, OnOk, Result-cases, Bool-cases, Option-cases, ◌==◌, arith,
  if◌then◌else◌,
}
use gptrader_mw_v.Regime.Selection.{RegimeSelectionState, SelectStrategyResult}
use gptrader_mw_v.Regime.Json.{Library}
use gptrader_mw_v.Regime.Audit.{SelectionAuditRecord}
use gptrader_mw_v.Regime.Rows.{
  StateRow, EventRow, Database, select_state, select_event, state_from_row,
}
use gptrader_mw_v.Regime.Store.{
  Committed, Prepared, prepare, replay, current_version, state_row, event_row, write_state,
  committed, commit_new, transact, or_rollback, commit_with,
}
use gptrader_mw_v.Regime.Store.Chains.{
  Chain, version_of, IsConsistent, Chain-other, Chain-entry, select_state-append,
  select_state-update, select_state-update_other,
}

-- The events that were there are as they were, and at most one comes after them.
abbrev pub Extends : Database → Database → Type 0
Extends db db' =
    (db'.events ≡ db.events) ⊎ ((row : EventRow) × (db'.events ≡ db.events ++ row ∷ []))

module _ (library : Library) where
  -- A transaction that rolls back leaves what was there before.
  kept :
      (db : Database) (written : Result (Database × Result Committed))
      → IsConsistent db
      → OnOk (λ (w : Database × Result Committed). IsConsistent w.0) written
      → IsConsistent (or_rollback library db written).1
  kept db (ok (db', answer)) before after = after
  kept db (err e) before after = before

  state_from_row-version :
      (row : StateRow) (s : RegimeSelectionState)
      → state_from_row library row ≡ ok s
      → s.state_version ≡ row.state_version
  unfolding state_from_row
  state_from_row-version row s h = ground arith

  current_version-row :
      (o : Option StateRow) (r : SelectStrategyResult) (v : ℕ)
      → current_version library o r ≡ ok v
      → v ≡ version_of o
  unfolding current_version
  current_version-row none r v h = ground arith
  current_version-row (some row) r v h = elim (Result-cases (state_from_row library row)) [
    | inl (s, read) ↦ ground (arith, state_from_row-version row s read)
    | inr (e, failed) ↦ ground arith
  ]

  -- What a commit at a new boundary writes.
  pub record Written (p : Prepared) (expected : ℕ) (r : SelectStrategyResult)
      (audit : Option SelectionAuditRecord) (db db' : Database) (answer : Result Committed)
      : Type 0 where
    pub version : version_of (select_state db.states p.symbol) ≡ expected
    pub states :
        (symbol : String)
        → select_state db'.states symbol ≡ (
            if str_eq p.symbol symbol
            then some (state_row library p r)
            else select_state db.states symbol)
    pub answered : answer ≡ committed library r audit
    pub events : db'.events ≡ db.events ++ event_row library p expected r audit ∷ []

  written_states :
      (o : Option StateRow) (rows : List StateRow) (new : StateRow) (expected : ℕ)
      (rows' : List StateRow)
      → select_state rows new.symbol ≡ o
      → version_of o ≡ expected
      → write_state library o rows new expected ≡ ok rows'
      → (symbol : String)
      → select_state rows' symbol
        ≡ (if str_eq new.symbol symbol then some new else select_state rows symbol)
  unfolding write_state
  written_states none rows new expected rows' found version h symbol =
      ground (arith, eq_iff new.symbol symbol, select_state-append rows new symbol)
  written_states (some row) rows new expected rows' found version h symbol =
      elim (Bool-cases (str_eq new.symbol symbol)) [
        | inl same ↦
            ground (arith, eq_iff new.symbol symbol, select_state-update rows new expected row)
        | inr differs ↦ ground (arith, select_state-update_other rows new expected symbol)
      ]

  pub commit_new-Written :
      (p : Prepared) (expected : ℕ) (r : SelectStrategyResult) (audit : Option SelectionAuditRecord)
      (db : Database)
      → OnOk
          (λ (written : Database × Result Committed).
            Written p expected r audit db written.0 written.1)
          (commit_new library p expected r audit db)
  unfolding commit_new
  commit_new-Written p expected r audit db =
      elim (Result-cases (current_version library (select_state db.states p.symbol) r)) [
        | inr (e, failed) ↦ rw failed tt
        | inl (version, current) ↦ elim (Bool-cases (version == expected)) [
          | inr stale ↦ rw (current) (rw stale tt)
          | inl fresh ↦
              elim (Result-cases (
                write_state library (select_state db.states p.symbol) db.states
                  (state_row library p r) expected)) [
                    | inr (e, failed) ↦ rw current (rw fresh (rw failed tt))
                    | inl (states, wrote) ↦
                        let same =
                          current_version-row (select_state db.states p.symbol) r version current in
                        let agreed : version_of (select_state db.states p.symbol) ≡ expected =
                          ground arith in
                        rw current (
                          rw fresh (
                            rw wrote (record {
                              version = agreed;
                              states =
                                  written_states (select_state db.states p.symbol) db.states
                                    (state_row library p r) expected states refl agreed wrote;
                              events = refl;
                              answered = refl;
                            })))
                  ]
        ]
      ]

  Written-IsConsistent :
      (p : Prepared) (expected : ℕ) (r : SelectStrategyResult) (audit : Option SelectionAuditRecord)
      (db db' : Database) (answer : Result Committed)
      → r.state.state_version ≡ suc expected
      → Written p expected r audit db db' answer
      → IsConsistent db
      → IsConsistent db'
  Written-IsConsistent p expected r audit db db' answer next w consistent symbol = rw w.events (
      rw (w.states symbol) (elim (Bool-cases (str_eq p.symbol symbol)) [
        | inl same ↦ rw same (
            subst (Chain symbol (db.events ++ event_row library p expected r audit ∷ []) 0)
              (sym next)
              (Chain-entry symbol (event_row library p expected r audit) same refl next (
                subst (Chain symbol db.events 0) (ground (arith, w.version, eq_iff p.symbol symbol))
                  (consistent symbol))))
        | inr differs ↦
            rw differs (
              Chain-other symbol (event_row library p expected r audit) differs (consistent symbol))
      ]))

  prepare-next :
      (expected : ℕ) (r : SelectStrategyResult) (p : Prepared)
      → prepare library expected r ≡ ok p
      → r.state.state_version ≡ suc expected
  unfolding prepare
  prepare-next expected r p h = ground arith

  transact-IsConsistent :
      (p : Prepared) (expected : ℕ) (r : SelectStrategyResult) (audit : Option SelectionAuditRecord)
      (db : Database)
      → r.state.state_version ≡ suc expected
      → IsConsistent db
      → OnOk
          (λ (written : Database × Result Committed). IsConsistent written.0)
          (transact library p expected r audit db)
  unfolding transact
  transact-IsConsistent p expected r audit db next consistent =
      elim (Option-cases
        (select_event db.events p.symbol p.boundary_at r.evaluated_artifact_identity)) [
          | inl missing ↦ elim (Result-cases (commit_new library p expected r audit db)) [
            | inl ((db', answer), made) ↦
                rw (missing, transact)
                  (rw made (
                    Written-IsConsistent p expected r audit db db' answer next
                      (subst
                        (OnOk (λ (written : Database × Result Committed).
                          Written p expected r audit db written.0 written.1))
                        made (commit_new-Written p expected r audit db))
                      consistent))
            | inr (e, failed) ↦ rw (missing, transact) (rw failed tt)
          ]
          | inr (prior, found) ↦ elim (Result-cases (replay library p audit prior)) [
            | inl (answer, replayed) ↦ rw (found, transact) (rw replayed consistent)
            | inr (e, failed) ↦ rw (found, transact) (rw failed tt)
          ]
        ]

  kept_events :
      (db : Database) (written : Result (Database × Result Committed))
      → OnOk (λ (w : Database × Result Committed). Extends db w.0) written
      → Extends db (or_rollback library db written).1
  kept_events db (ok (db', answer)) after = after
  kept_events db (err e) after = inl refl

  transact-Extends :
      (p : Prepared) (expected : ℕ) (r : SelectStrategyResult) (audit : Option SelectionAuditRecord)
      (db : Database)
      → OnOk
          (λ (written : Database × Result Committed). Extends db written.0)
          (transact library p expected r audit db)
  unfolding transact
  transact-Extends p expected r audit db =
      elim (Option-cases
        (select_event db.events p.symbol p.boundary_at r.evaluated_artifact_identity)) [
          | inl missing ↦ elim (Result-cases (commit_new library p expected r audit db)) [
            | inl ((db', answer), made) ↦
                let w =
                  subst
                    (OnOk (λ (written : Database × Result Committed).
                      Written p expected r audit db written.0 written.1))
                    made (commit_new-Written p expected r audit db) in
                rw (missing, transact)
                  (rw made (inr (event_row library p expected r audit, w.events)))
            | inr (e, failed) ↦ rw (missing, transact) (rw failed tt)
          ]
          | inr (prior, found) ↦ elim (Result-cases (replay library p audit prior)) [
            | inl (answer, replayed) ↦ rw (found, transact) (rw replayed (inl refl))
            | inr (e, failed) ↦ rw (found, transact) (rw failed tt)
          ]
        ]

  commit_with-Extends :
      (expected : ℕ) (r : SelectStrategyResult) (audit : Option SelectionAuditRecord)
      (db : Database)
      → Extends db (commit_with library expected r audit db).1
  unfolding commit_with
  commit_with-Extends expected r audit db = elim (Result-cases (prepare library expected r)) [
    | inr (e, failed) ↦ rw failed (inl refl)
    | inl (p, prepared) ↦ rw prepared (
        kept_events db (transact library p expected r audit db)
          (transact-Extends p expected r audit db))
  ]

  commit_with-Chain :
      (expected : ℕ) (r : SelectStrategyResult) (audit : Option SelectionAuditRecord)
      (db : Database)
      → IsConsistent db
      → IsConsistent (commit_with library expected r audit db).1
  unfolding commit_with
  commit_with-Chain expected r audit db consistent =
      elim (Result-cases (prepare library expected r)) [
        | inr (e, failed) ↦ rw failed consistent
        | inl (p, prepared) ↦ rw prepared (
            kept db (transact library p expected r audit db) consistent (
              transact-IsConsistent p expected r audit db (prepare-next expected r p prepared)
                consistent))
      ]

  -- Whatever is committed, and whether the commit returns or raises, the events of every symbol go on
  -- to lead its version from nothing to the version of its stored state, one at a time; and the events
  -- that were stored before are all there, unchanged and in order, followed by at most one new one.
  pub commit_with-IsConsistent :
      (expected : ℕ) (r : SelectStrategyResult) (audit : Option SelectionAuditRecord)
      (db : Database)
      → IsConsistent db
      → let db' = (commit_with library expected r audit db).1 in IsConsistent db' × Extends db db'
  commit_with-IsConsistent expected r audit db consistent =
      (commit_with-Chain expected r audit db consistent, commit_with-Extends expected r audit db)
