-- ===== src/Position.antt =====
-- domain/position: a position, the events that change it, and the checks of both constructors.
pub mod Events
use gptrader_mw_v.Prelude.{
  Bool, true, false, ◌||◌, ◌&&◌, not, String, Option, none, some, Result, ok, err, ◌>>=◌, ◌>>◌,
  refuse_if, or_raise, value_error, ℤ, pos, ltb_ℤ, leb_ℤ, eqb_ℤ, if◌then◌else◌, is_none,
}
use gptrader_mw_v.Decimal.{Decimal, Context, plus, minus, times, divide}
use gptrader_mw_v.Market.{Symbol}
use gptrader_mw_v.Signal.{SignalDirection, is_wait, same_direction}

pub data PositionEventType : Type 0 where
  increase decrease close : PositionEventType

pub record PositionEvent : Type 0 where
  pub event_type : PositionEventType
  pub quantity : Decimal
  pub price : Option Decimal
  pub direction : Option SignalDirection

abbrev pub not_positive : Option Decimal → Bool
not_positive none = false
not_positive (some price) = leb_ℤ price (pos 0)

abbrev pub names_wait : Option SignalDirection → Bool
names_wait none = false
names_wait (some d) = is_wait d

-- `PositionEvent.__post_init__`
unfoldable pub check_event : PositionEvent → Result PositionEvent
check_event e = do
  refuse_if (leb_ℤ e.quantity (pos 0)) "quantity must be positive"
  refuse_if (not_positive e.price) "price must be positive"
  refuse_if (names_wait e.direction) "direction must be LONG or SHORT"
  ok e

unfoldable pub increase_event : SignalDirection → Decimal → Decimal → Result PositionEvent
unfolding check_event
increase_event d quantity price =
    check_event (record {
      event_type = increase;
      quantity = quantity;
      price = some price;
      direction = some d;
    })

unfoldable pub decrease_event : Decimal → Option Decimal → Result PositionEvent
unfolding check_event
decrease_event quantity price =
    check_event
      (record { event_type = decrease; quantity = quantity; price = price; direction = none })

unfoldable pub close_event : Decimal → Option Decimal → Result PositionEvent
unfolding check_event
close_event quantity price =
    check_event
      (record { event_type = close; quantity = quantity; price = price; direction = none })

pub data PositionStatus : Type 0 where
  opened closed : PositionStatus

abbrev pub is_open : PositionStatus → Bool
is_open opened = true
is_open closed = false

pub record Position : Type 0 where
  pub symbol : Symbol
  pub direction : SignalDirection
  pub quantity : Decimal
  pub average_entry_price : Decimal
  pub status : PositionStatus

-- `Position.__post_init__`
unfoldable pub check_position : Position → Result Position
check_position p = do
  refuse_if (is_wait p.direction) "position direction must be LONG or SHORT"
  refuse_if (ltb_ℤ p.quantity (pos 0)) "quantity cannot be negative"
  refuse_if (leb_ℤ p.average_entry_price (pos 0)) "average_entry_price must be positive"
  refuse_if (is_open p.status && leb_ℤ p.quantity (pos 0)) "open position quantity must be positive"
  refuse_if (not (is_open p.status) && not (eqb_ℤ p.quantity (pos 0)))
      "closed position quantity must be zero"
  ok p

-- `Position.open`
unfoldable pub open_position : Symbol → SignalDirection → Decimal → Decimal → Result Position
open_position symbol d quantity price = check_position (record {
  symbol = symbol;
  direction = d;
  quantity = quantity;
  average_entry_price = price;
  status = opened;
})

-- `Position.closed`
unfoldable pub closed_position : Symbol → SignalDirection → Decimal → Result Position
closed_position symbol d price = check_position (record {
  symbol = symbol;
  direction = d;
  quantity = pos 0;
  average_entry_price = price;
  status = closed;
})

abbrev pub is_direction : Option SignalDirection → SignalDirection → Bool
is_direction none d = false
is_direction (some d') d = same_direction d' d

module _ ⦃context : Context⦄ where
  -- `Position._increase`
  unfoldable pub increase_position : Position → PositionEvent → Result Position
  unfolding open_position
  increase_position p e = do
    refuse_if (not (is_direction e.direction p.direction))
        "increase event direction must match position direction"
    price ← or_raise e.price (value_error "increase event price is required")
    let new_quantity = plus p.quantity e.quantity
    let weighted_entry_value =
        plus (times p.average_entry_price p.quantity) (times price e.quantity)
    new_average_entry_price ← divide weighted_entry_value new_quantity
    open_position p.symbol p.direction new_quantity new_average_entry_price

  -- `Position._decrease`
  unfoldable pub decrease_position : Position → PositionEvent → Result Position
  unfolding open_position closed_position
  decrease_position p e = do
    refuse_if (ltb_ℤ p.quantity e.quantity)
        "event quantity cannot exceed remaining position quantity"
    let remaining_quantity = minus p.quantity e.quantity
    if eqb_ℤ remaining_quantity (pos 0)
        then closed_position p.symbol p.direction p.average_entry_price
        else open_position p.symbol p.direction remaining_quantity p.average_entry_price

  -- The dispatch of `apply_event`: its last `raise` is for a type that the enum does not have.
  abbrev dispatch_event : PositionEventType → Position → PositionEvent → Result Position
  dispatch_event increase = increase_position
  dispatch_event decrease = decrease_position
  dispatch_event close = decrease_position

  -- `Position.apply_event`
  unfoldable pub apply_event : Position → PositionEvent → Result Position
  unfolding increase_position decrease_position
  apply_event p e = do
    refuse_if (not (is_open p.status)) "cannot apply event to closed position"
    dispatch_event e.event_type p e
