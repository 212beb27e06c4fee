-- ===== src/Execution/Orders.antt =====
-- What the constructors of orders and results accept.
use gptrader_mw_v.Prelude.{
  Bool, true, false, ◌≡◌, ◌≢◌, none, some, String, ok, Returns, is_blank, is_some, pos, ◌≤ℤ◌, arith,
}
use gptrader_mw_v.Decimal.{Decimal}
use gptrader_mw_v.Market.{Symbol}
use gptrader_mw_v.Signal.{SignalDirection, is_wait}
use gptrader_mw_v.Execution.{
  OrderType, market, limit, take_profit_market, stop_market, OrderRequest, check_request,
  market_request, missing_or_not_positive,
}
use gptrader_mw_v.Execution.Results.{OrderResult, check_result, is_filled, rejected}

-- The shape of an order by its type: which of the three amounts it carries.
abbrev pub Shaped : OrderType → OrderRequest → Type 0
Shaped market r = (r.limit_price ≡ none) × (r.stop_price ≡ none)
Shaped limit r = (missing_or_not_positive r.limit_price ≡ false) × (r.stop_price ≡ none)
Shaped take_profit_market r =
    (r.limit_price ≡ none)
    × (missing_or_not_positive r.stop_price ≡ false)
    × (r.close_position ≡ true)
Shaped stop_market r =
    (r.limit_price ≡ none)
    × (missing_or_not_positive r.stop_price ≡ false)
    × (r.close_position ≡ true)

pub record IsValidRequest (r : OrderRequest) : Type 0 where
  pub identified : is_blank r.client_order_id ≡ false
  pub directed : is_wait r.side ≡ false
  pub sized : r.close_position ≡ false → missing_or_not_positive r.quantity ≡ false
  pub whole : r.close_position ≡ true → r.quantity ≡ none
  pub shaped : Shaped r.order_type r

-- `check_request` returns exactly on the valid requests, unchanged.
pub check_request-ok : (r s : OrderRequest) → check_request r ≡ ok s → (s ≡ r) × IsValidRequest r
unfolding check_request
check_request-ok r s h = ground arith

pub check_request-accepts : (r : OrderRequest) → IsValidRequest r → check_request r ≡ ok r
unfolding check_request
check_request-accepts r v = ground arith

-- `OrderRequest.market` returns exactly when the identifier is not blank, the side is a direction and
-- the quantity is positive; the order it returns is valid and carries these and nothing else.
pub market_request-ok :
    (id : String) (symbol : Symbol) (side : SignalDirection) (quantity : Decimal)
    (reduce_only : Bool) (r : OrderRequest)
    → market_request id symbol side quantity reduce_only ≡ ok r
    → IsValidRequest r
      × (r.client_order_id ≡ id)
      × (r.symbol ≡ symbol)
      × (r.side ≡ side)
      × (r.order_type ≡ market)
      × (r.quantity ≡ some quantity)
      × (r.reduce_only ≡ reduce_only)
      × (r.close_position ≡ false)
unfolding market_request
market_request-ok id symbol side quantity reduce_only r h = ground arith

pub market_request-Returns :
    (id : String) (symbol : Symbol) (side : SignalDirection) (quantity : Decimal)
    (reduce_only : Bool)
    → is_blank id ≡ false
    → is_wait side ≡ false
    → pos 1 ≤ℤ quantity
    → Returns (λ r. r.quantity ≡ some quantity) (market_request id symbol side quantity reduce_only)
unfolding market_request
market_request-Returns id symbol side quantity reduce_only hb hw hq = ground arith

-- What the constructor of `OrderResult` accepts.
pub record IsValidResult (r : OrderResult) : Type 0 where
  pub identified : is_blank r.client_order_id ≡ false
  pub explained : r.status ≡ rejected → is_some r.failure_reason ≡ true
  pub unexplained : r.status ≢ rejected → r.failure_reason ≡ none
  pub executed :
      is_filled r.status ≡ true
      → (missing_or_not_positive r.executed_quantity ≡ false)
        × (missing_or_not_positive r.average_price ≡ false)
  pub unexecuted :
      is_filled r.status ≡ false → (r.executed_quantity ≡ none) × (r.average_price ≡ none)

pub check_result-ok : (r s : OrderResult) → check_result r ≡ ok s → (s ≡ r) × IsValidResult r
unfolding check_result
check_result-ok r s h = ground arith
