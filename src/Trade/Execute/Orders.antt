-- ===== src/Trade/Execute/Orders.antt =====
-- The market order that `execute` submits, and when.
use gptrader_mw_v.Prelude.{
  true, false, ◌≡◌, refl, subst, inl, inr, Option, none, some, ◌∷◌, Result, ok, err, Error,
  Result-cases, Bool-cases, OnOk, pos, ◌≤ℤ◌, arith,
}
use gptrader_mw_v.Decimal.{Decimal, Context, divide}
use gptrader_mw_v.Signal.{SignalDirection, TradeDecision}
use gptrader_mw_v.Execution.{OrderRequest, market, market_request}
use gptrader_mw_v.Execution.Results.{OrderResult}
use gptrader_mw_v.Execution.Orders.{market_request-ok}
use gptrader_mw_v.Strategy.{StrategyContext, GeneratedSignal, TakeProfitStopLossLevels}
use gptrader_mw_v.Risk.{
  ExposureLimit, RiskCheck, PositionSize, remaining_total_exposure, remaining_symbol_exposure,
  cap_notional, check_position_size, check_entry,
}
use gptrader_mw_v.Risk.Limits.{cap_notional-eq}
use gptrader_mw_v.Trade.Journal.{Journal, submit}
use gptrader_mw_v.Trade.Dto.{
  Ports, ExecuteTradeCommand, ExecuteTradeResult, order_submitted, risk_rejected,
}
use gptrader_mw_v.Trade.Execute.{
  place_orders, sizing, requested_by, enter, levels_of, protect, execute_order_id,
}
use gptrader_mw_v.Trade.Execute.Protective.{returned, ProtectedBy, protect-ProtectedBy}

-- A market order that opens a position of the given size.
pub record EntryOrder (command : ExecuteTradeCommand) (d : SignalDirection) (quantity : Decimal)
    (r : OrderRequest) : Type 0 where
  pub order_type : r.order_type ≡ market
  pub symbol : r.symbol ≡ command.symbol
  pub side : r.side ≡ d
  pub quantity_given : r.quantity ≡ some quantity
  pub not_reducing : r.reduce_only ≡ false
  pub id : r.client_order_id ≡ execute_order_id command

-- What `place_orders` adds to the journal: the market order and then its protective orders.
pub record Entered (command : ExecuteTradeCommand) (d : SignalDirection) (quantity : Decimal)
    (j : Journal) (r : Result ExecuteTradeResult) (j' : Journal) : Type 0 where
  pub order : OrderRequest
  pub levels : Option TakeProfitStopLossLevels
  pub reported : OnOk (λ x. (x.status ≡ order_submitted) × (x.take_profit_stop_loss ≡ levels)) r
  pub entry : EntryOrder command d quantity order
  pub protection : ProtectedBy levels command.symbol d (submit order ∷ j) (returned r) j'

-- What a run of `place_orders` leaves: no call and an error, or the entry order and its protection.
pub data Placed (command : ExecuteTradeCommand) (d : SignalDirection) (quantity : Decimal)
    (j : Journal) : Result ExecuteTradeResult × Journal → Type 0 where
  failed : (e : Error) → Placed command d quantity j (err e, j)
  placed :
      (r : Result ExecuteTradeResult) (j' : Journal)
      → Entered command d quantity j r j'
      → Placed command d quantity j (r, j')

module _ (ports : Ports) where
  place_orders-Placed :
      (command : ExecuteTradeCommand) (c : StrategyContext) (g : GeneratedSignal) (z : PositionSize)
      (k : RiskCheck) (j : Journal)
      → Placed command g.signal.direction z.quantity j (place_orders ports command c g z k j)
  unfolding place_orders
  place_orders-Placed command c g z k j =
      let d = g.signal.direction in
      let id = execute_order_id command in
      elim (Result-cases (levels_of ports ports.calculate_levels c d)) [
        | inr (e, h) ↦ rw h (failed e)
        | inl (levels, h) ↦
            rw h (elim (Result-cases (market_request id command.symbol d z.quantity false)) [
              | inr (e, hm) ↦ rw hm (failed e)
              | inl (order, hm) ↦
                  let entry : EntryOrder command d z.quantity order =
                    ground
                      (arith, market_request-ok id command.symbol d z.quantity false order hm) in
                  let j1 = submit order ∷ j in
                  rw hm (elim (Result-cases (ports.answer_order order j)) [
                    | inr (e, ha) ↦ rw ha (
                        placed (err e) j1 (record {
                          order = order;
                          levels = none;
                          reported = tt;
                          entry = entry;
                          protection = refl;
                        }))
                    | inl (answer, ha) ↦
                        let shown = protect-ProtectedBy ports levels command.symbol d id j1 in
                        let by = λ (r : Result (Option (OrderResult × OrderResult))).
                          ProtectedBy levels command.symbol d j1 (returned r)
                            (protect ports levels command.symbol d id j1).1 in
                        rw ha (elim (Result-cases (protect ports levels command.symbol d id j1).0) [
                          | inr (e, hp) ↦ rw hp (
                              placed (err e) _ (record {
                                order = order;
                                levels = levels;
                                reported = tt;
                                entry = entry;
                                protection = subst by hp shown;
                              }))
                          | inl (results, hp) ↦ rw hp (
                              placed (ok _) _ (record {
                                order = order;
                                levels = levels;
                                reported = (refl, refl);
                                entry = entry;
                                protection = subst by hp shown;
                              }))
                        ])
                  ])
            ])
      ]

-- An order is backed by the exposure limit: the notional that was requested is not negative and within
-- both remaining exposures, and the quantity is that notional over the entry price.
pub record Backed ⦃context : Context⦄ (l : ExposureLimit) (price quantity : Decimal) : Type 0 where
  pub notional : Decimal
  pub nonneg : pos 0 ≤ℤ notional
  pub total : notional ≤ℤ remaining_total_exposure l
  pub symbol : notional ≤ℤ remaining_symbol_exposure l
  pub divided : divide notional price ≡ ok quantity

module _ ⦃context : Context⦄ where
  -- What `enter` leaves: no call, with an error or a risk rejection, or backed orders.
  pub data Tried (command : ExecuteTradeCommand) (d : SignalDirection) (price : Decimal)
      (j : Journal) : Result ExecuteTradeResult × Journal → Type 0 where
    raised : (e : Error) → Tried command d price j (err e, j)
    refused :
        (x : ExecuteTradeResult) → x.status ≡ risk_rejected → Tried command d price j (ok x, j)
    entered :
        (r : Result ExecuteTradeResult) (j' : Journal) (quantity : Decimal)
        → Backed command.exposure_limit price quantity
        → Entered command d quantity j r j'
        → Tried command d price j (r, j')

module _ (ports : Ports) ⦃context : Context⦄ where
  backed :
      (l : ExposureLimit) (decision : TradeDecision) (price requested quantity : Decimal)
      (z : PositionSize) (k : RiskCheck)
      → k.is_allowed ≡ true
      → divide (cap_notional l requested) price ≡ ok quantity
      → check_position_size (record { notional = cap_notional l requested; quantity = quantity })
        ≡ ok z
      → check_entry decision l requested ≡ ok k
      → Backed l price z.quantity
  unfolding check_entry check_position_size
  backed l decision price requested quantity z k allowed divided sized checked = record {
    notional = requested;
    nonneg = ground arith;
    total = ground arith;
    symbol = ground arith;
    divided = ground (arith, cap_notional-eq l requested);
  }

  Placed-Tried :
      (command : ExecuteTradeCommand) (d : SignalDirection) (price quantity : Decimal) (j : Journal)
      {o : Result ExecuteTradeResult × Journal}
      → Backed command.exposure_limit price quantity
      → Placed command d quantity j o
      → Tried command d price j o
  Placed-Tried command d price quantity j b (failed e) = raised e
  Placed-Tried command d price quantity j b (placed r j' n) = entered r j' quantity b n

  pub enter-Tried :
      (command : ExecuteTradeCommand) (c : StrategyContext) (g : GeneratedSignal)
      (decision : TradeDecision) (price : Decimal) (j : Journal)
      → Tried command g.signal.direction price j (enter ports command c g decision price j)
  unfolding enter
  enter-Tried command c g decision price j =
      let l = command.exposure_limit in
      elim (Result-cases (sizing ports ports.decide_size command decision)) [
        | inr (e, h) ↦ rw h (raised e)
        | inl (s, h) ↦
            let requested = requested_by ports command s in
            rw h (elim (Result-cases (divide (cap_notional l requested) price)) [
              | inr (e, hd) ↦ rw hd (raised e)
              | inl (quantity, hd) ↦
                  rw hd
                    (elim (Result-cases (
                      check_position_size
                        (record { notional = cap_notional l requested; quantity = quantity }))) [
                          | inr (e, hz) ↦ rw hz (raised e)
                          | inl (z, hz) ↦
                              rw hz (elim (Result-cases (check_entry decision l requested)) [
                                | inr (e, hk) ↦ rw hk (raised e)
                                | inl (k, hk) ↦ rw hk (elim (Bool-cases k.is_allowed) [
                                  | inr no_ ↦ simp no_ (refused _ refl)
                                  | inl yes_ ↦ simp yes_ (
                                      Placed-Tried command g.signal.direction price z.quantity j
                                        (backed l decision price requested quantity z k yes_ hd hz
                                          hk)
                                        (place_orders-Placed ports command c g z k j))
                                ])
                              ])
                        ])
            ])
      ]
