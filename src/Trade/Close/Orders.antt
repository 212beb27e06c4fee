-- ===== src/Trade/Close/Orders.antt =====
-- The order that closes a position, and what a report that it was filled does to the position.
use gptrader_mw_v.Prelude.{
  true, false, ◌≡◌, refl, subst, inl, inr, none, some, ◌∷◌, Result, ok, OnOk, Returns, Result-cases,
  is_blank, is_blank-++, pos, ◌≤ℤ◌, arith,
}
use Prim.Native.String
use gptrader_mw_v.Decimal.{Decimal, Context}
use gptrader_mw_v.Decimal.Laws.{minus_self}
use gptrader_mw_v.Market.{pair}
use gptrader_mw_v.Signal.{SignalDirection, long, short, wait, is_wait}
use gptrader_mw_v.Position.{
  Position, PositionEvent, opened, closed, is_open, decrease, apply_event, decrease_event,
}
use gptrader_mw_v.Position.Events.{IsValid, Decreased, apply_event-decrease}
use gptrader_mw_v.Execution.{OrderRequest, market, market_request}
use gptrader_mw_v.Execution.Results.{ExecutionReport, is_filled}
use gptrader_mw_v.Execution.Orders.{market_request-ok, market_request-Returns}
use gptrader_mw_v.Trade.Journal.{Journal, submit}
use gptrader_mw_v.Trade.Dto.{
  Ports, ClosePositionCommand, ClosePositionResult, order_submitted, skipped,
}
use gptrader_mw_v.Trade.Execute.{opposite_side}
use gptrader_mw_v.Trade.Close.{close_order_id, submit_close, close}
use gptrader_mw_v.Trade.Sync.{apply_report}

-- A market order over the whole quantity of a position, on the other side, that can only reduce it.
pub record ClosingOrder (p : Position) (r : OrderRequest) : Type 0 where
  pub order_type : r.order_type ≡ market
  pub symbol : r.symbol ≡ p.symbol
  pub side : r.side ≡ opposite_side p.direction
  pub whole : r.quantity ≡ some p.quantity
  pub reducing : r.reduce_only ≡ true

-- The identifier is never blank, since it contains a dash.
close_order_id-not_blank : (c : ClosePositionCommand) → is_blank (close_order_id c) ≡ false
unfolding close_order_id is_blank
close_order_id-not_blank c =
    let suffix = pair c.position.symbol in
    ground
      (arith, is_blank-++ c.client_order_id_prefix (String.◌++◌ "-" suffix), is_blank-++ "-" suffix)

module _ (ports : Ports) where
  closing :
      (c : ClosePositionCommand) (r : OrderRequest)
      → market_request
          (close_order_id c)
          c.position.symbol
          (opposite_side c.position.direction)
          c.position.quantity
          true
        ≡ ok r
      → ClosingOrder c.position r
  closing c r h = ground (
    arith,
    market_request-ok (close_order_id c) c.position.symbol (opposite_side c.position.direction)
        c.position.quantity true r h,
  )

  opposite_side-not_wait : (d : SignalDirection) → is_wait (opposite_side d) ≡ false
  opposite_side-not_wait long = refl
  opposite_side-not_wait short = refl
  opposite_side-not_wait wait = refl

  -- What `close` does to an open position: exactly one call, the closing order, whose answer decides
  -- whether it returns a submitted order or raises what the port raised.
  pub record Submitted (c : ClosePositionCommand) (j : Journal)
      (o : Result ClosePositionResult × Journal) : Type 0 where
    pub order : OrderRequest
    pub closes : ClosingOrder c.position order
    pub called : o.1 ≡ (submit order ∷ j)
    pub answered :
        OnOk
          (λ x.
            (x.status ≡ order_submitted)
            × (ports.answer_order order j
                ≡ elim x.order_result [ none ↦ ports.answer_order order j | some a ↦ ok a ]))
          o.0

  submit_close-Submitted :
      (c : ClosePositionCommand) (j : Journal)
      → IsValid c.position
      → is_open c.position.status ≡ true
      → Submitted c j (submit_close ports c j)
  unfolding submit_close
  submit_close-Submitted c j v open_ =
      let id = close_order_id c in
      let p = c.position in
      let side = opposite_side p.direction in
      let accepted =
        market_request-Returns id p.symbol side p.quantity true (close_order_id-not_blank c)
          (opposite_side-not_wait p.direction) (v.open_quantity open_) in
      elim (Result-cases (market_request id p.symbol side p.quantity true)) [
        | inr (e, h) ↦ absurd (subst (Returns (λ r. r.quantity ≡ some p.quantity)) h accepted)
        | inl (r, h) ↦ rw h (elim (Result-cases (ports.answer_order r j)) [
          | inr (e, ha) ↦
              rw ha (record { order = r; closes = closing c r h; called = refl; answered = tt })
          | inl (a, ha) ↦
              rw ha
                (record { order = r; closes = closing c r h; called = refl; answered = (refl, ha) })
        ])
      ]

  -- On a valid open position `close` makes exactly one call, an order that reduces the position by its
  -- whole quantity on the other side; on a valid closed position it makes no call and reports that it skipped.
  pub close-Submitted :
      (c : ClosePositionCommand) (j : Journal)
      → IsValid c.position
      → (is_open c.position.status ≡ true → Submitted c j (close ports c j))
        × (is_open c.position.status ≡ false
            → (close ports c j).1 ≡ j × OnOk (λ x. x.status ≡ skipped) (close ports c j).0)
  unfolding close
  close-Submitted c j v =
      (λ open_. rw open_ (submit_close-Submitted c j v open_), λ shut. rw shut (refl, refl))

module _ ⦃context : Context⦄ where
  closing_decrease :
      (p : Position) (quantity price : Decimal)
      → IsValid p
      → p.status ≡ opened
      → quantity ≡ p.quantity
      → pos 1 ≤ℤ price
      → (e : PositionEvent) × (decrease_event quantity (some price) ≡ ok e)
        × Returns
            (λ q.
              (q.status ≡ closed)
              × (q.quantity ≡ pos 0)
              × (q.symbol ≡ p.symbol)
              × (q.direction ≡ p.direction)
              × (q.average_entry_price ≡ p.average_entry_price))
            (apply_event p e)
  unfolding decrease_event
  closing_decrease p quantity price v open_ same positive =
      let e : PositionEvent = record {
        event_type = decrease;
        quantity = quantity;
        price = some price;
        direction = none;
      } in
      let shown = apply_event-decrease p e v open_ (λ other. cc) (ground arith) in
      elim (Result-cases (apply_event p e)) [
        | inl (q, h) ↦
            let d : Decreased p e q = subst (Returns (Decreased p e)) h shown in
            (
              e,
              ground arith,
              rw h (
                ground arith,
                ground (arith, minus_self p.quantity),
                d.symbol,
                d.direction,
                d.price,
              ),
            )
        | inr (x, h) ↦ absurd (subst (Returns (Decreased p e)) h shown)
      ]

  -- When a report says that a closing order was filled over the whole quantity at a positive price,
  -- applying it to the valid open position that the order was made for returns a closed position with
  -- nothing left, and the same symbol, direction and average price.
  pub apply_report-closes :
      (p : Position) (r : ExecutionReport) (price : Decimal)
      → IsValid p
      → p.status ≡ opened
      → ClosingOrder p r.request
      → is_filled r.result.status ≡ true
      → r.result.executed_quantity ≡ some p.quantity
      → r.result.average_price ≡ some price
      → pos 1 ≤ℤ price
      → Returns
          (λ q.
            (q.status ≡ closed)
            × (q.quantity ≡ pos 0)
            × (q.symbol ≡ p.symbol)
            × (q.direction ≡ p.direction)
            × (q.average_entry_price ≡ p.average_entry_price))
          (apply_report p r)
  unfolding apply_report
  apply_report-closes p r price v open_ closing filled executed priced positive =
      ground (arith, closing_decrease p p.quantity price v open_ refl positive)
