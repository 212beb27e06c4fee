-- ===== src/Trade/Sync/Reports.antt =====
-- What the reports of the exchange do to a position.
use gptrader_mw_v.Prelude.{
  true, false, ◌≡◌, refl, subst, ap, sym, ◌∙◌, ◌⊎◌, inl, inr, none, some, List, [], ◌∷◌, ◌++◌,
  Result, ok, >>=-eq-ok, Bool-cases, Option-cases, Result-cases, arith, if◌then◌else◌,
}
use mathlib.Core.List.{append_assoc, append-nil}
use gptrader_mw_v.Decimal.{Decimal, Context}
use gptrader_mw_v.Position.{Position, PositionEvent, apply_event, decrease_event, closed}
use gptrader_mw_v.Position.Events.{IsValid, SamePosition, apply_event-Applied}
use gptrader_mw_v.Execution.Results.{ExecutionReport, is_filled, to_position_event}
use gptrader_mw_v.Trade.Dto.{Ports, SyncPositionCommand, SyncPositionResult}
use gptrader_mw_v.Trade.Sync.{apply_filled, apply_report, apply_reports, sync}

-- The event that a filled report stands for: a decrease if the order only reduces, else an increase.
abbrev pub event_of : ExecutionReport → Decimal → Result PositionEvent
event_of report quantity =
    if report.request.reduce_only
    then decrease_event quantity report.result.average_price
    else to_position_event report

-- A report that changes nothing: its order is not filled, or no quantity was executed.
abbrev pub IsQuiet : ExecutionReport → Type 0
IsQuiet r = (is_filled r.result.status ≡ false) ⊎ (r.result.executed_quantity ≡ none)

module _ ⦃context : Context⦄ where
  -- The reports take one position to another: quiet ones are passed over, each other one is applied
  -- as its event.
  pub data Synced : Position → List ExecutionReport → Position → Type 0 where
    done : (p : Position) → Synced p [] p
    quiet :
        (p q : Position) (r : ExecutionReport) (rs : List ExecutionReport)
        → IsQuiet r
        → Synced p rs q
        → Synced p (r ∷ rs) q
    fill :
        (p p' q : Position) (r : ExecutionReport) (rs : List ExecutionReport) (quantity : Decimal)
        (e : PositionEvent)
        → is_filled r.result.status ≡ true
        → r.result.executed_quantity ≡ some quantity
        → event_of r quantity ≡ ok e
        → apply_event p e ≡ ok p'
        → Synced p' rs q
        → Synced p (r ∷ rs) q

  filled_event :
      (p p' : Position) (r : ExecutionReport) (quantity : Decimal)
      → apply_filled p r quantity ≡ ok p'
      → (e : PositionEvent) × (event_of r quantity ≡ ok e) × (apply_event p e ≡ ok p')
  unfolding apply_filled
  filled_event p p' r quantity h = elim (Result-cases (event_of r quantity)) [
    | inl (e, he) ↦ (e, he, ground arith)
    | inr (e, he) ↦ ground arith
  ]

  apply_report-Synced :
      (p p' q : Position) (r : ExecutionReport) (rs : List ExecutionReport)
      → apply_report p r ≡ ok p'
      → Synced p' rs q
      → Synced p (r ∷ rs) q
  unfolding apply_report
  apply_report-Synced p p' q r rs h s = elim (Bool-cases (is_filled r.result.status)) [
    | inr not_filled ↦ quiet p q r rs (inl not_filled) (subst (λ x. Synced x rs q) (ground arith) s)
    | inl filled ↦ elim (Option-cases r.result.executed_quantity) [
      | inl nothing ↦ quiet p q r rs (inr nothing) (subst (λ x. Synced x rs q) (ground arith) s)
      | inr (quantity, executed) ↦
          let (e, he, ha) = filled_event p p' r quantity (ground arith) in
          fill p p' q r rs quantity e filled executed he ha s
    ]
  ]

  apply_reports-Synced :
      (p : Position) (applied rs : List ExecutionReport) (s : SyncPositionResult)
      → apply_reports p applied rs ≡ ok s
      → Synced p rs s.position × (s.applied_reports ≡ applied ++ rs)
  unfolding apply_reports
  apply_reports-Synced p applied [] s h =
      (subst (Synced p []) (ground arith) (done p), ground (arith, append-nil applied))
  apply_reports-Synced p applied (r ∷ rs) s h =
      let (p', step, rest) = >>=-eq-ok (apply_report p r) _ h in
      let (synced, listed) = apply_reports-Synced p' (applied ++ r ∷ []) rs s rest in
      (
        apply_report-Synced p p' s.position r rs step synced,
        listed ∙ append_assoc applied (r ∷ []) rs,
      )

  -- Along the reports a position stays valid and keeps its symbol and direction.
  Synced-IsValid :
      (p q : Position) (rs : List ExecutionReport)
      → Synced p rs q
      → IsValid p
      → IsValid q × SamePosition p q
  Synced-IsValid p q rs (done _) v = (v, (refl, refl))
  Synced-IsValid p q rs (quiet _ _ r rs2 h s) v = Synced-IsValid p q rs2 s v
  Synced-IsValid p q rs (fill _ p' _ r rs2 quantity e f x ev a s) v =
      let (_, v', same, _) = apply_event-Applied p p' e v a in
      let (w, same') = Synced-IsValid p' q rs2 s v' in (w, (same'.0 ∙ same.0, same'.1 ∙ same.1))

  -- Once a position is closed, only quiet reports can follow.
  abbrev pub AllQuiet : List ExecutionReport → Type 0
  AllQuiet [] = Unit
  AllQuiet (r ∷ rs) = IsQuiet r × AllQuiet rs

  closed-AllQuiet :
      (p q : Position) (rs : List ExecutionReport)
      → Synced p rs q
      → IsValid p
      → p.status ≡ closed
      → AllQuiet rs × (q ≡ p)
  closed-AllQuiet p q rs (done _) v c = (tt, refl)
  closed-AllQuiet p q rs (quiet _ _ r rs2 h s) v c =
      let (rest, same) = closed-AllQuiet p q rs2 s v c in ((h, rest), same)
  closed-AllQuiet p q rs (fill _ p' _ r rs2 quantity e f x ev a s) v c =
      let (was_open, _, _, _) = apply_event-Applied p p' e v a in ground arith

  -- When `sync` returns from a valid position, the port had returned reports, all of them are listed
  -- as applied in their order, and the new position is what the position becomes by the events of the
  -- filled reports, one after the other. It is valid and has the same symbol and direction; and if the
  -- old position was closed, no report had been filled and the position is the old one.
  pub sync-Synced :
      (ports : Ports) (command : SyncPositionCommand) (s : SyncPositionResult)
      → IsValid command.position
      → sync ports command ≡ ok s
      → (ports.load_execution_reports command.position.symbol command.since command.until
          ≡ ok s.applied_reports)
        × Synced command.position s.applied_reports s.position
        × IsValid s.position
        × SamePosition command.position s.position
        × (command.position.status ≡ closed
            → AllQuiet s.applied_reports × (s.position ≡ command.position))
  unfolding sync
  sync-Synced ports command s v h =
      let p = command.position in
      let (rs, loaded, applied) =
        >>=-eq-ok (ports.load_execution_reports p.symbol command.since command.until) _ h in
      let (synced, listed) = apply_reports-Synced p [] rs s applied in
      let synced' = subst (λ l. Synced p l s.position) (sym listed) synced in
      let (w, same) = Synced-IsValid p s.position s.applied_reports synced' v in
      (
        loaded ∙ ap ok (sym listed),
        synced',
        w,
        same,
        closed-AllQuiet p s.position s.applied_reports synced' v,
      )
