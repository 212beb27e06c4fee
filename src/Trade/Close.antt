-- ===== src/Trade/Close.antt =====
-- ClosePositionUseCase (application/usecases/trade/close_position_usecase.py).
pub mod Orders
use gptrader_mw_v.Prelude.{
  Bool, true, false, not, String, Option, none, some, Result, ok, if◌then◌else◌,
}
use Prim.Native.String
use gptrader_mw_v.Market.{pair}
use gptrader_mw_v.Position.{is_open}
use gptrader_mw_v.Execution.{market_request}
use gptrader_mw_v.Trade.Journal.{Action, pure, lift, ◌>>=◌}
use gptrader_mw_v.Trade.Dto.{
  Ports, ClosePositionCommand, ClosePositionResult, order_submitted, skipped,
}
use gptrader_mw_v.Trade.Execute.{opposite_side, submit_order}

-- `ClosePositionUseCase._client_order_id`
unfoldable pub close_order_id : ClosePositionCommand → String
unfolding pair
close_order_id c = String.◌++◌ c.client_order_id_prefix (String.◌++◌ "-" (pair c.position.symbol))

module _ (ports : Ports) where
  -- The order that closes the position of a command.
  unfoldable pub submit_close : ClosePositionCommand → Action ClosePositionResult
  unfolding submit_order
  submit_close command = do
    let p = command.position
    order ← lift (
        market_request (close_order_id command) p.symbol (opposite_side p.direction) p.quantity
          true)
    order_result ← submit_order ports order
    pure (record { status = order_submitted; order_result = some order_result; reason = none })

  -- `ClosePositionUseCase.close`
  unfoldable pub close : ClosePositionCommand → Action ClosePositionResult
  unfolding submit_close
  close command =
      if not (is_open command.position.status)
      then pure
          (record { status = skipped; order_result = none; reason = some "position_not_open" })
      else submit_close command
