-- ===== src/Trade/Manage.antt =====
-- ManageOpenPositionUseCase (application/usecases/trade/manage_open_position_usecase.py).
pub mod Decisions
use gptrader_mw_v.Prelude.{
  Bool, true, false, not, ◌&&◌, ◌||◌, String, Option, none, some, List, Result, ok, if◌then◌else◌,
}
use gptrader_mw_v.Market.{latest_candle}
use gptrader_mw_v.Signal.{SignalDirection, is_long, is_short}
use gptrader_mw_v.Position.{is_open}
use gptrader_mw_v.Strategy.{make_context, GeneratedSignal}
use gptrader_mw_v.Trade.Journal.{Action, pure, lift, ◌>>=◌, ◌>>◌}
use gptrader_mw_v.Trade.Dto.{
  Ports, ClosePositionCommand, check_close_command, ManageOpenPositionCommand,
  ManageOpenPositionResult, skipped,
}
use gptrader_mw_v.Trade.Execute.{log_signal}
use gptrader_mw_v.Trade.Close.{close}

-- `_is_opposite_signal`
unfoldable pub is_opposite_signal : SignalDirection → SignalDirection → Bool
is_opposite_signal position signal =
    is_long position && is_short signal || is_short position && is_long signal

module _ (ports : Ports) where
  -- `manage` on an opposite signal.
  unfoldable pub close_opposite :
      ManageOpenPositionCommand → GeneratedSignal → Action ManageOpenPositionResult
  close_opposite command generated = do
    close_command ← lift (
        check_close_command (record {
          position = command.position;
          client_order_id_prefix = command.client_order_id_prefix;
        }))
    close_result ← close ports close_command
    pure (record {
      status = close_result.status;
      generated_signal = some generated;
      close_result = some close_result;
      reason = some "opposite_signal";
    })

  -- `manage` once the signal is logged.
  unfoldable pub react :
      ManageOpenPositionCommand → GeneratedSignal → Action ManageOpenPositionResult
  react command generated =
      if not (is_opposite_signal command.position.direction generated.signal.direction)
      then pure (record {
        status = skipped;
        generated_signal = some generated;
        close_result = none;
        reason = some "position_signal_still_valid";
      })
      else close_opposite command generated

  -- `manage` on an open position.
  unfoldable pub manage_open : ManageOpenPositionCommand → Action ManageOpenPositionResult
  manage_open command = do
    market ←
        lift (ports.load_snapshot command.position.symbol command.timeframe command.candle_limit)
    features ← lift (
        ports.load_features market.first.symbol market.first.timeframe
          (latest_candle market).closed_at)
    c ← lift (make_context market command.indicators (some features) List.[])
    generated ← lift (ports.generate c)
    log_signal ports command.signal_id command.generator_id generated
    react command generated

  -- `ManageOpenPositionUseCase.manage`
  unfoldable pub manage : ManageOpenPositionCommand → Action ManageOpenPositionResult
  manage command =
      if not (is_open command.position.status)
      then pure (record {
        status = skipped;
        generated_signal = none;
        close_result = none;
        reason = some "position_not_open";
      })
      else manage_open command
