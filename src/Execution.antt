-- ===== src/Execution.antt =====
-- domain/execution: order requests. Results and reports are in the child module.
pub mod Results
pub mod Orders
use gptrader_mw_v.Prelude.{
  ℕ, Bool, true, false, ◌||◌, ◌&&◌, not, String, str_eq, Option, none, some, Result, ok, err, ◌>>=◌,
  ◌>>◌, refuse_if, or_raise, value_error, ℤ, pos, ltb_ℤ, leb_ℤ, is_blank, is_none, is_some,
  if◌then◌else◌,
}
use gptrader_mw_v.Decimal.{Decimal}
use gptrader_mw_v.Market.{Symbol}
use gptrader_mw_v.Signal.{SignalDirection, is_wait}
use gptrader_mw_v.Position.{PositionEvent, increase_event}

pub data OrderType : Type 0 where
  market limit take_profit_market stop_market : OrderType

pub record OrderRequest : Type 0 where
  pub client_order_id : String
  pub symbol : Symbol
  pub side : SignalDirection
  pub order_type : OrderType
  pub quantity : Option Decimal
  pub limit_price : Option Decimal
  pub stop_price : Option Decimal
  pub reduce_only : Bool
  pub close_position : Bool

abbrev pub is_market : OrderType → Bool
is_market market = true
is_market _ = false

-- `value is None or value <= 0`
abbrev pub missing_or_not_positive : Option Decimal → Bool
missing_or_not_positive none = true
missing_or_not_positive (some x) = leb_ℤ x (pos 0)

abbrev pub check_quantity : Bool → Option Decimal → Result (Unit {0})
check_quantity true q = refuse_if (is_some q) "close_position order quantity must be empty"
check_quantity false q = refuse_if (missing_or_not_positive q) "quantity must be positive"

abbrev pub check_limit : OrderType → Option Decimal → Result (Unit {0})
check_limit limit price = do
  refuse_if (is_none price) "limit_price is required"
  refuse_if (missing_or_not_positive price) "limit_price must be positive"
check_limit _ price = refuse_if (is_some price) "limit_price is only valid for limit orders"

abbrev pub check_protective : Option Decimal → Bool → Result (Unit {0})
check_protective price close_position = do
  refuse_if (is_none price) "stop_price is required"
  refuse_if (missing_or_not_positive price) "stop_price must be positive"
  refuse_if (not close_position) "protective market orders must close_position"

abbrev pub check_stop : OrderType → Option Decimal → Bool → Result (Unit {0})
check_stop take_profit_market price close_position = check_protective price close_position
check_stop stop_market price close_position = check_protective price close_position
check_stop _ price _ =
    refuse_if (is_some price) "stop_price is only valid for protective market orders"

-- `OrderRequest.__post_init__`
unfoldable pub check_request : OrderRequest → Result OrderRequest
check_request r = do
  refuse_if (is_blank r.client_order_id) "client_order_id is required"
  refuse_if (is_wait r.side) "side must be LONG or SHORT"
  check_quantity r.close_position r.quantity
  refuse_if (is_market r.order_type && is_some r.limit_price)
      "market order limit_price must be empty"
  check_limit r.order_type r.limit_price
  check_stop r.order_type r.stop_price r.close_position
  ok r

-- `OrderRequest.market`
unfoldable pub market_request :
    String → Symbol → SignalDirection → Decimal → Bool → Result OrderRequest
unfolding check_request
market_request client_order_id symbol side quantity reduce_only = check_request (record {
  client_order_id = client_order_id;
  symbol = symbol;
  side = side;
  order_type = market;
  quantity = some quantity;
  limit_price = none;
  stop_price = none;
  reduce_only = reduce_only;
  close_position = false;
})

-- `OrderRequest.limit`
unfoldable pub limit_request :
    String → Symbol → SignalDirection → Decimal → Decimal → Bool → Result OrderRequest
unfolding check_request
limit_request client_order_id symbol side quantity limit_price reduce_only = check_request (record {
  client_order_id = client_order_id;
  symbol = symbol;
  side = side;
  order_type = limit;
  quantity = some quantity;
  limit_price = some limit_price;
  stop_price = none;
  reduce_only = reduce_only;
  close_position = false;
})

-- `OrderRequest.take_profit_market` and `OrderRequest.stop_market`, told apart by the type.
unfoldable pub protective_request :
    OrderType → String → Symbol → SignalDirection → Decimal → Result OrderRequest
unfolding check_request
protective_request order_type client_order_id symbol side stop_price = check_request (record {
  client_order_id = client_order_id;
  symbol = symbol;
  side = side;
  order_type = order_type;
  quantity = none;
  limit_price = none;
  stop_price = some stop_price;
  reduce_only = false;
  close_position = true;
})

unfoldable pub take_profit_request :
    String → Symbol → SignalDirection → Decimal → Result OrderRequest
unfolding protective_request
take_profit_request = protective_request take_profit_market

unfoldable pub stop_request : String → Symbol → SignalDirection → Decimal → Result OrderRequest
unfolding protective_request
stop_request = protective_request stop_market
