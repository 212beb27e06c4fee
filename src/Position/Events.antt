-- ===== src/Position/Events.antt =====
-- What an event does to a position (`Position.apply_event` and its two helpers).
use gptrader_mw_v.Prelude.{
  true, false, ◌≡◌, ◌≢◌, subst, inl, inr, some, Result, ok, Returns, Bool-cases, Option-cases,
  Result-cases, eq_of_parts, pos, ◌≤ℤ◌, arith, ltb_ℤ,
}
use gptrader_mw_v.Decimal.{Decimal, Context, plus, minus, times, divide}
use gptrader_mw_v.Decimal.Laws.{minus_pos, minus_self}
use gptrader_mw_v.Signal.{is_wait}
use gptrader_mw_v.Position.{
  Position, PositionEvent, PositionEventType, opened, is_open, increase, decrease, close,
  check_position, check_event, is_direction, increase_position, decrease_position, dispatch_event,
  apply_event, not_positive, names_wait,
}

-- What the constructor of `Position` accepts.
pub record IsValid (p : Position) : Type 0 where
  pub directed : is_wait p.direction ≡ false
  pub not_negative : pos 0 ≤ℤ p.quantity
  pub priced : pos 1 ≤ℤ p.average_entry_price
  pub open_quantity : is_open p.status ≡ true → pos 1 ≤ℤ p.quantity
  pub closed_quantity : is_open p.status ≡ false → p.quantity ≡ pos 0

pub record IsValidEvent (e : PositionEvent) : Type 0 where
  pub positive : pos 1 ≤ℤ e.quantity
  pub price_positive : not_positive e.price ≡ false
  pub directed : names_wait e.direction ≡ false

-- The constructor accepts exactly the valid positions, and returns what it was given.
pub check_position-accepts : (p : Position) → IsValid p → check_position p ≡ ok p
unfolding check_position
check_position-accepts p v = ground (arith)

pub check_position-ok : (p q : Position) → check_position p ≡ ok q → (q ≡ p) × IsValid p
unfolding check_position
check_position-ok p q h = ground (arith)

pub check_event-ok : (e f : PositionEvent) → check_event e ≡ ok f → (f ≡ e) × IsValidEvent e
unfolding check_event
check_event-ok e f h = ground arith

module _ ⦃context : Context⦄ where
  -- What a change leaves as it was.
  abbrev pub SamePosition : Position → Position → Type 0
  SamePosition p q = (q.symbol ≡ p.symbol) × (q.direction ≡ p.direction)

  -- The outcome of a decrease or a close that does not exceed the position.
  pub record Decreased (p : Position) (e : PositionEvent) (q : Position) : Type 0 where
    pub symbol : q.symbol ≡ p.symbol
    pub direction : q.direction ≡ p.direction
    pub price : q.average_entry_price ≡ p.average_entry_price
    pub quantity : q.quantity ≡ minus p.quantity e.quantity
    pub stays_open : is_open q.status ≡ ltb_ℤ e.quantity p.quantity

  decreased :
      (p : Position) (e : PositionEvent)
      → IsValid p
      → e.quantity ≤ℤ p.quantity
      → Returns (Decreased p e) (decrease_position p e)
  unfolding decrease_position check_position
  decreased p e v h = elim (Bool-cases (ltb_ℤ e.quantity p.quantity)) [
    | inl less ↦ ground (arith, minus_pos p.quantity e.quantity)
    | inr equal ↦ ground (arith, minus_self p.quantity, eq_of_parts e.quantity p.quantity)
  ]

  -- On an open valid position, a decrease or close event whose quantity does not exceed the
  -- position's returns a position with the same symbol, direction and average price, whose quantity
  -- is the difference, and which is still open exactly when the event's quantity was smaller.
  pub apply_event-decrease :
      (p : Position) (e : PositionEvent)
      → IsValid p
      → p.status ≡ opened
      → e.event_type ≢ increase
      → e.quantity ≤ℤ p.quantity
      → Returns (Decreased p e) (apply_event p e)
  unfolding apply_event
  apply_event-decrease p e v open_ other h = ground (arith, decreased p e v h)

  -- The average entry price after an increase: the value of both parts over the new quantity.
  abbrev pub new_average : Position → PositionEvent → Decimal → Result Decimal
  new_average p e price =
      divide (plus (times p.average_entry_price p.quantity) (times price e.quantity))
        (plus p.quantity e.quantity)

  abbrev increased_to : Position → PositionEvent → Decimal → Position
  increased_to p e average = record p {
    quantity = plus p.quantity e.quantity;
    average_entry_price = average;
    status = opened;
  }

  -- The outcome of an increase.
  pub record Increased (p : Position) (e : PositionEvent) (price : Decimal) (q : Position)
      : Type 0 where
    pub stays_open : q.status ≡ opened
    pub direction : is_direction e.direction p.direction ≡ true
    pub quantity : q.quantity ≡ plus p.quantity e.quantity
    pub priced : e.price ≡ some price
    pub average : new_average p e price ≡ ok q.average_entry_price

  increased :
      (p q : Position) (e : PositionEvent)
      → increase_position p e ≡ ok q
      → IsValid q × SamePosition p q × ((price : Decimal) × Increased p e price q)
  unfolding increase_position
  increased p q e h = elim (Option-cases e.price) [
    | inl no_price ↦ ground arith
    | inr (price, priced) ↦ elim (Result-cases (new_average p e price)) [
      | inl (average, divided) ↦
          let built = check_position-ok (increased_to p e average) q in
          (ground (arith, built), ground (arith, built), (price, ground (arith, built)))
      | inr (error, failed) ↦ ground arith
    ]
  ]

  decreased_ok :
      (p q : Position) (e : PositionEvent)
      → IsValid p
      → decrease_position p e ≡ ok q
      → IsValid q × (e.quantity ≤ℤ p.quantity)
  unfolding decrease_position check_position
  decreased_ok p q e v h = ground arith

  opened_before :
      (p q : Position) (e : PositionEvent)
      → apply_event p e ≡ ok q
      → (p.status ≡ opened) × (dispatch_event e.event_type p e ≡ ok q)
  unfolding apply_event
  opened_before p q e h = ground arith

  -- What a successful `apply_event` has done, by the type of the event.
  abbrev pub Applied : PositionEventType → Position → PositionEvent → Position → Type 0
  Applied increase p e q = (price : Decimal) × Increased p e price q
  Applied decrease p e q = Decreased p e q
  Applied close p e q = Decreased p e q

  applied :
      (t : PositionEventType) (p q : Position) (e : PositionEvent)
      → IsValid p
      → dispatch_event t p e ≡ ok q
      → IsValid q × SamePosition p q × Applied t p e q
  applied increase p q e v h = increased p q e h
  applied decrease p q e v h =
      let (valid, within) = decreased_ok p q e v h in
      let d : Decreased p e q = subst (Returns (Decreased p e)) h (decreased p e v within) in
      (valid, (d.symbol, d.direction), d)
  applied close p q e v h =
      let (valid, within) = decreased_ok p q e v h in
      let d : Decreased p e q = subst (Returns (Decreased p e)) h (decreased p e v within) in
      (valid, (d.symbol, d.direction), d)

  -- Whenever `apply_event` returns from a valid position, that position was open, the result is
  -- valid and has the same symbol and direction; an increase agreed in direction, had a price, added
  -- the quantities and averaged the two entry values over the new quantity; a decrease or close kept
  -- the average price, subtracted the quantities, and closed the position exactly when they were equal.
  pub apply_event-Applied :
      (p q : Position) (e : PositionEvent)
      → IsValid p
      → apply_event p e ≡ ok q
      → (p.status ≡ opened) × IsValid q × SamePosition p q × Applied e.event_type p e q
  unfolding apply_event
  apply_event-Applied p q e v h =
      let (was_open, dispatched) = opened_before p q e h in
      let (valid, same, effect) = applied e.event_type p q e v dispatched in
      (was_open, valid, same, effect)
