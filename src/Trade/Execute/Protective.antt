-- ===== src/Trade/Execute/Protective.antt =====
-- The take-profit and stop-loss orders that `execute` submits after its market order.
use gptrader_mw_v.Prelude.{
  Bool, true, false, ◌≡◌, refl, subst, inl, inr, String, Option, none, some, ◌∷◌, Result, ok, err,
  Result-cases, arith,
}
use Prim.Native.String
use gptrader_mw_v.Decimal.{Decimal}
use gptrader_mw_v.Market.{Symbol}
use gptrader_mw_v.Signal.{SignalDirection}
use gptrader_mw_v.Execution.{
  OrderType, OrderRequest, take_profit_market, stop_market, take_profit_request, stop_request,
}
use gptrader_mw_v.Strategy.{TakeProfitStopLossLevels}
use gptrader_mw_v.Trade.Journal.{Journal, submit}
use gptrader_mw_v.Trade.Dto.{Ports}
use gptrader_mw_v.Trade.Execute.{opposite_side, submit_take_profit_stop_loss_orders, protect}

-- An order that closes the whole position on the other side at a trigger price.
pub record ProtectiveOrder (t : OrderType) (symbol : Symbol) (d : SignalDirection) (price : Decimal)
    (r : OrderRequest) : Type 0 where
  pub order_type : r.order_type ≡ t
  pub symbol_given : r.symbol ≡ symbol
  pub side : r.side ≡ opposite_side d
  pub trigger : r.stop_price ≡ some price
  pub whole : r.close_position ≡ true
  pub unsized : r.quantity ≡ none

-- Whether a call returned.
abbrev pub returned {ℓ} : {A : Type ℓ} → Result A → Bool
returned (ok a) = true
returned (err e) = false

-- The calls of the protective orders: none, the take profit, or the take profit and the stop loss;
-- only with both of them do they return.
pub data Protected (symbol : Symbol) (d : SignalDirection) (take_profit stop_loss : Decimal)
    (j : Journal) : Bool → Journal → Type 0 where
  unprotected : Protected symbol d take_profit stop_loss j false j
  one :
      (tp : OrderRequest)
      → ProtectiveOrder take_profit_market symbol d take_profit tp
      → Protected symbol d take_profit stop_loss j false (submit tp ∷ j)
  both :
      (b : Bool) (tp sl : OrderRequest)
      → ProtectiveOrder take_profit_market symbol d take_profit tp
      → ProtectiveOrder stop_market symbol d stop_loss sl
      → Protected symbol d take_profit stop_loss j b (submit sl ∷ submit tp ∷ j)

take_profit_request-ok :
    (id : String) (symbol : Symbol) (side : SignalDirection) (price : Decimal) (r : OrderRequest)
    → take_profit_request id symbol side price ≡ ok r
    → (r.order_type ≡ take_profit_market)
      × (r.symbol ≡ symbol)
      × (r.side ≡ side)
      × (r.stop_price ≡ some price)
      × (r.close_position ≡ true)
      × (r.quantity ≡ none)
unfolding take_profit_request
take_profit_request-ok id symbol side price r h = ground arith

stop_request-ok :
    (id : String) (symbol : Symbol) (side : SignalDirection) (price : Decimal) (r : OrderRequest)
    → stop_request id symbol side price ≡ ok r
    → (r.order_type ≡ stop_market)
      × (r.symbol ≡ symbol)
      × (r.side ≡ side)
      × (r.stop_price ≡ some price)
      × (r.close_position ≡ true)
      × (r.quantity ≡ none)
unfolding stop_request
stop_request-ok id symbol side price r h = ground arith

protective :
    (t : OrderType) (symbol : Symbol) (d : SignalDirection) (price : Decimal) (r : OrderRequest)
    → (r.order_type ≡ t)
      × (r.symbol ≡ symbol)
      × (r.side ≡ opposite_side d)
      × (r.stop_price ≡ some price)
      × (r.close_position ≡ true)
      × (r.quantity ≡ none)
    → ProtectiveOrder t symbol d price r
protective t symbol d price r h = ground arith

-- The calls that follow the market order, by the levels that were calculated.
abbrev pub ProtectedBy :
    Option TakeProfitStopLossLevels → Symbol → SignalDirection → Journal → Bool → Journal → Type 0
ProtectedBy none symbol d j b j' = j' ≡ j
ProtectedBy (some l) symbol d j b j' = Protected symbol d l.take_profit l.stop_loss j b j'

module _ (ports : Ports) where
  pub submit_protective-Protected :
      (symbol : Symbol) (d : SignalDirection) (take_profit stop_loss : Decimal) (prefix : String)
      (j : Journal)
      → Protected symbol d take_profit stop_loss j
          (returned
            (submit_take_profit_stop_loss_orders ports symbol d take_profit stop_loss prefix j).0)
          (submit_take_profit_stop_loss_orders ports symbol d take_profit stop_loss prefix j).1
  unfolding submit_take_profit_stop_loss_orders
  submit_protective-Protected symbol d take_profit stop_loss prefix j =
      let side = opposite_side d in
      let tp_id = String.◌++◌ prefix "-tp" in
      let sl_id = String.◌++◌ prefix "-sl" in
      elim (Result-cases (take_profit_request tp_id symbol side take_profit)) [
        | inr (e, h) ↦ rw h unprotected
        | inl (tp, h) ↦
            let first =
              protective take_profit_market symbol d take_profit tp
                (take_profit_request-ok tp_id symbol side take_profit tp h) in
            rw h (elim (Result-cases (ports.answer_order tp j)) [
              | inr (e, ha) ↦ rw ha (one tp first)
              | inl (answer, ha) ↦
                  rw ha (elim (Result-cases (stop_request sl_id symbol side stop_loss)) [
                    | inr (e, hs) ↦ rw hs (one tp first)
                    | inl (sl, hs) ↦
                        let second =
                          protective stop_market symbol d stop_loss sl
                            (stop_request-ok sl_id symbol side stop_loss sl hs) in
                        rw hs (elim (Result-cases (ports.answer_order sl (submit tp ∷ j))) [
                          | inr (e, hb) ↦ rw hb (both _ tp sl first second)
                          | inl (answer', hb) ↦ rw hb (both _ tp sl first second)
                        ])
                  ])
            ])
      ]

  pub protect-ProtectedBy :
      (levels : Option TakeProfitStopLossLevels) (symbol : Symbol) (d : SignalDirection)
      (id : String) (j : Journal)
      → ProtectedBy levels symbol d j
          (returned (protect ports levels symbol d id j).0)
          (protect ports levels symbol d id j).1
  protect-ProtectedBy none symbol d id j = refl
  protect-ProtectedBy (some l) symbol d id j =
      let run = submit_take_profit_stop_loss_orders ports symbol d l.take_profit l.stop_loss id j in
      let shown = submit_protective-Protected symbol d l.take_profit l.stop_loss id j in
      elim (Result-cases run.0) [
        | inl (results, h) ↦
            rw h (
              subst (λ r. Protected symbol d l.take_profit l.stop_loss j (returned r) run.1) h
                shown)
        | inr (e, h) ↦
            rw h (
              subst (λ r. Protected symbol d l.take_profit l.stop_loss j (returned r) run.1) h
                shown)
      ]
