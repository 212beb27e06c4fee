-- ===== src/Trade/Sync.antt =====
-- SyncPositionUseCase (application/usecases/trade/sync_position_usecase.py).
pub mod Reports
use gptrader_mw_v.Prelude.{
  Bool, true, false, not, Option, none, some, List, [], ◌∷◌, ◌++◌, Result, ok, err, ◌>>=◌, ◌>>◌,
  if◌then◌else◌,
}
use gptrader_mw_v.Decimal.{Decimal, Context}
use gptrader_mw_v.Position.{Position, decrease_event, apply_event}
use gptrader_mw_v.Execution.Results.{ExecutionReport, is_filled, to_position_event}
use gptrader_mw_v.Trade.Dto.{Ports, SyncPositionCommand, SyncPositionResult}

module _ ⦃context : Context⦄ where
  -- The end of `_apply_report`, for a report with an executed quantity.
  unfoldable pub apply_filled : Position → ExecutionReport → Decimal → Result Position
  apply_filled position report quantity =
      if report.request.reduce_only
      then (do
        event ← decrease_event quantity report.result.average_price
        apply_event position event)
      else (do event ← to_position_event report; apply_event position event)

  abbrev pub apply_executed : Option Decimal → Position → ExecutionReport → Result Position
  unfolding apply_filled
  apply_executed none position report = ok position
  apply_executed (some quantity) position report = apply_filled position report quantity

  -- `SyncPositionUseCase._apply_report`
  unfoldable pub apply_report : Position → ExecutionReport → Result Position
  unfolding apply_filled
  apply_report position report =
      if not (is_filled report.result.status)
      then ok position
      else apply_executed report.result.executed_quantity position report

  -- The loop of `sync`, which appends each report to the list once it is applied.
  unfoldable pub apply_reports :
      Position → List ExecutionReport → List ExecutionReport → Result SyncPositionResult
  unfolding apply_report
  apply_reports position applied [] = ok (record { position = position; applied_reports = applied })
  apply_reports position applied (report ∷ reports) = do
    position' ← apply_report position report
    apply_reports position' (applied ++ report ∷ []) reports

  -- `SyncPositionUseCase.sync`
  unfoldable pub sync : Ports → SyncPositionCommand → Result SyncPositionResult
  unfolding apply_reports
  sync ports command = do
    reports ← ports.load_execution_reports command.position.symbol command.since command.until
    apply_reports command.position [] reports
