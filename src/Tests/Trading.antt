-- ===== src/Tests/Trading.antt =====
-- The theorems on the trade use cases, applied.
use gptrader_mw_v.Prelude.{true, false, ◌≡◌, refl, [], ◌∷◌, ok, OnOk, Returns, pos, ◌-ℤ◌, arith}
use gptrader_mw_v.Decimal.{minus}
use gptrader_mw_v.Decimal.Plain.{plain}
use gptrader_mw_v.Position.{opened, closed, is_open, decrease_event, apply_event, check_position}
use gptrader_mw_v.Position.Events.{SamePosition, IsValid}
use gptrader_mw_v.Trade.Dto.{SyncPositionResult, skipped}
use gptrader_mw_v.Trade.Close.{close}
use gptrader_mw_v.Trade.Close.Orders.{ClosingOrder, Submitted, close-Submitted, apply_report-closes}
use gptrader_mw_v.Trade.Manage.{manage}
use gptrader_mw_v.Trade.Manage.Decisions.{Managed, manage-Managed}
use gptrader_mw_v.Trade.Sync.{apply_report, sync}
use gptrader_mw_v.Trade.Sync.Reports.{AllQuiet, Synced, sync-Synced}
use gptrader_mw_v.Tests.Samples.{
  units, eth, position, position-IsValid, report, ports, close_command, manage_command,
  sync_command,
}

manage-Managed_example : Managed manage_command [] (manage ports manage_command [])
manage-Managed_example = manage-Managed ports manage_command [] position-IsValid

close-Submitted_example :
    (is_open position.status ≡ true
      → Submitted ports close_command [] (close ports close_command []))
    × (is_open position.status ≡ false
        → (close ports close_command []).1 ≡ []
          × OnOk (λ x. x.status ≡ skipped) (close ports close_command []).0)
close-Submitted_example = close-Submitted ports close_command [] position-IsValid

position_closing : ClosingOrder position (report (units 2)).request
position_closing = record {
  order_type = refl;
  symbol = refl;
  side = refl;
  whole = refl;
  reducing = refl;
}

apply_report-closes_example :
    Returns
      (λ q.
        (q.status ≡ closed)
        × (q.quantity ≡ pos 0)
        × (q.symbol ≡ eth)
        × (q.direction ≡ position.direction)
        × (q.average_entry_price ≡ units 100))
      (apply_report position (report (units 2)))
apply_report-closes_example =
    apply_report-closes position (report (units 2)) (units 100) position-IsValid refl
      position_closing refl refl refl (omega arith)

abbrev synced : SyncPositionResult
synced = record {
  position = record {
    symbol = eth;
    direction = position.direction;
    quantity = units 1;
    average_entry_price = units 100;
    status = opened;
  };
  applied_reports = report (units 1) ∷ [];
}

sync_run : sync ports sync_command ≡ ok synced
unfolding sync decrease_event apply_event minus ◌-ℤ◌ check_position
sync_run = refl

sync-Synced_example :
    (ports.load_execution_reports eth 0 7200000000 ≡ ok synced.applied_reports)
    × Synced position synced.applied_reports synced.position
    × IsValid synced.position
    × SamePosition position synced.position
    × (position.status ≡ closed → AllQuiet synced.applied_reports × (synced.position ≡ position))
sync-Synced_example = sync-Synced ports sync_command synced position-IsValid sync_run
