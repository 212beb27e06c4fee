-- ===== src/Execution/Results.antt =====
-- Order results and the reports that pair them with requests (domain/execution/order_result.py,
-- domain/execution/execution_report.py).
use gptrader_mw_v.Prelude.{
  Bool, true, false, ◌||◌, not, String, str_eq, Option, none, some, Result, ok, ◌>>=◌, ◌>>◌,
  refuse_if, or_raise, value_error, is_blank, is_none, is_some,
}
use gptrader_mw_v.Decimal.{Decimal}
use gptrader_mw_v.Position.{PositionEvent, increase_event}
use gptrader_mw_v.Execution.{OrderRequest, missing_or_not_positive}

pub data OrderStatus : Type 0 where
  accepted rejected filled partially_filled canceled : OrderStatus

abbrev pub is_filled : OrderStatus → Bool
is_filled filled = true
is_filled partially_filled = true
is_filled _ = false

pub record OrderResult : Type 0 where
  pub client_order_id : String
  pub status : OrderStatus
  pub exchange_order_id : Option String
  pub executed_quantity : Option Decimal
  pub average_price : Option Decimal
  pub failure_reason : Option String

abbrev pub blank_reason : Option String → Bool
blank_reason none = true
blank_reason (some reason) = is_blank reason

abbrev pub check_failure : OrderStatus → Option String → Result (Unit {0})
check_failure rejected reason = refuse_if (blank_reason reason) "failure_reason is required"
check_failure _ reason =
    refuse_if (is_some reason) "failure_reason is only valid for rejected orders"

abbrev pub check_execution : Bool → Option Decimal → Option Decimal → Result (Unit {0})
check_execution true quantity price = do
  refuse_if (is_none quantity) "executed_quantity is required"
  refuse_if (missing_or_not_positive quantity) "executed_quantity must be positive"
  refuse_if (is_none price) "average_price is required"
  refuse_if (missing_or_not_positive price) "average_price must be positive"
check_execution false quantity price =
    refuse_if (is_some quantity || is_some price)
      "execution values are only valid for filled orders"

-- `OrderResult.__post_init__`
unfoldable pub check_result : OrderResult → Result OrderResult
check_result r = do
  refuse_if (is_blank r.client_order_id) "client_order_id is required"
  check_failure r.status r.failure_reason
  check_execution (is_filled r.status) r.executed_quantity r.average_price
  ok r

-- `OrderResult.accepted`
unfoldable pub accepted_result : String → Option String → Result OrderResult
unfolding check_result
accepted_result client_order_id exchange_order_id = check_result (record {
  client_order_id = client_order_id;
  status = accepted;
  exchange_order_id = exchange_order_id;
  executed_quantity = none;
  average_price = none;
  failure_reason = none;
})

-- `OrderResult.rejected`
unfoldable pub rejected_result : String → String → Result OrderResult
unfolding check_result
rejected_result client_order_id failure_reason = check_result (record {
  client_order_id = client_order_id;
  status = rejected;
  exchange_order_id = none;
  executed_quantity = none;
  average_price = none;
  failure_reason = some failure_reason;
})

-- `OrderResult.filled` and `OrderResult.partially_filled`
unfoldable executed_result :
    OrderStatus → String → Decimal → Decimal → Option String → Result OrderResult
unfolding check_result
executed_result status client_order_id executed_quantity average_price exchange_order_id =
    check_result (record {
      client_order_id = client_order_id;
      status = status;
      exchange_order_id = exchange_order_id;
      executed_quantity = some executed_quantity;
      average_price = some average_price;
      failure_reason = none;
    })

unfoldable pub filled_result : String → Decimal → Decimal → Option String → Result OrderResult
unfolding executed_result
filled_result = executed_result filled

unfoldable pub partially_filled_result :
    String → Decimal → Decimal → Option String → Result OrderResult
unfolding executed_result
partially_filled_result = executed_result partially_filled

-- `OrderResult.canceled`
unfoldable pub canceled_result : String → Option String → Result OrderResult
unfolding check_result
canceled_result client_order_id exchange_order_id = check_result (record {
  client_order_id = client_order_id;
  status = canceled;
  exchange_order_id = exchange_order_id;
  executed_quantity = none;
  average_price = none;
  failure_reason = none;
})

pub record ExecutionReport : Type 0 where
  pub request : OrderRequest
  pub result : OrderResult

-- `ExecutionReport.__post_init__`
unfoldable pub check_report : ExecutionReport → Result ExecutionReport
check_report r = do
  refuse_if (not (str_eq r.request.client_order_id r.result.client_order_id))
      "client_order_id must match request and result"
  ok r

-- `ExecutionReport.to_position_event`
unfoldable pub to_position_event : ExecutionReport → Result PositionEvent
to_position_event r = do
  refuse_if (not (is_filled r.result.status)) "execution report must be filled"
  refuse_if r.request.reduce_only "reduce_only report cannot create a position increase event"
  quantity ← or_raise r.result.executed_quantity (value_error "executed_quantity is required")
  price ← or_raise r.result.average_price (value_error "average_price is required")
  increase_event r.request.side quantity price
