-- ===== src/Trade/Execute/Traces.antt =====
-- What a whole run of `execute` leaves.
use gptrader_mw_v.Prelude.{
  ◌≡◌, ◌≢◌, ap, inl, inr, some, [], ◌∷◌, Result, ok, err, Error, Result-cases, Bool-cases, OnOk,
  arith,
}
use gptrader_mw_v.Decimal.{Decimal, Context}
use gptrader_mw_v.Market.{MarketSnapshot, latest_candle}
use gptrader_mw_v.Signal.{SignalDirection, is_entry}
use gptrader_mw_v.Strategy.{StrategyContext, GeneratedSignal, make_context}
use gptrader_mw_v.Trade.Journal.{Journal, SignalLogEntry, append_signal, and_then}
use gptrader_mw_v.Trade.Dto.{
  Ports, ExecuteTradeCommand, ExecuteTradeResult, order_submitted, make_log_entry,
}
use gptrader_mw_v.Trade.Execute.{decision_from_signal, decide_and_enter, execute}
use gptrader_mw_v.Trade.Execute.Orders.{
  Entered, Backed, Tried, raised, refused, entered, enter-Tried,
}
use gptrader_mw_v.Trade.Dto.Entries.{make_log_entry-ok}

-- The signal that `execute` generated goes to the log before anything else: what a whole run leaves.
pub data Executed ⦃context : Context⦄ (ports : Ports) (command : ExecuteTradeCommand) (j : Journal)
    : Result ExecuteTradeResult × Journal → Type 0 where
  not_logged : (e : Error) → Executed ports command j (err e, j)
  not_entered :
      (entry : SignalLogEntry) (r : Result ExecuteTradeResult)
      → OnOk (λ x. x.status ≢ order_submitted) r
      → Executed ports command j (r, append_signal entry ∷ j)
  ordered :
      (entry : SignalLogEntry) (r : Result ExecuteTradeResult) (j' : Journal) (m : MarketSnapshot)
      (quantity : Decimal)
      → ports.load_snapshot command.symbol command.timeframe command.candle_limit ≡ ok m
      → Backed command.exposure_limit (latest_candle m).close_price quantity
      → Entered command entry.generated_signal.signal.direction quantity
          (append_signal entry ∷ j)
          r
          j'
      → Executed ports command j (r, j')

Tried-Executed :
    ⦃context : Context⦄ (ports : Ports) (command : ExecuteTradeCommand) (entry : SignalLogEntry)
    (d : SignalDirection) (m : MarketSnapshot) (j : Journal)
    (o : Result ExecuteTradeResult × Journal)
    → ports.load_snapshot command.symbol command.timeframe command.candle_limit ≡ ok m
    → entry.generated_signal.signal.direction ≡ d
    → Tried command d (latest_candle m).close_price (append_signal entry ∷ j) o
    → Executed ports command j o
Tried-Executed ports command entry d m j o loaded same (raised e) = not_entered entry (err e) tt
Tried-Executed ports command entry d m j o loaded same (refused x s) =
    not_entered entry (ok x) (ground arith)
Tried-Executed ports command entry d m j o loaded same (entered r j' q b n) =
    ordered entry r j' m q loaded b (simp same n)

module _ (ports : Ports) ⦃context : Context⦄ where
  after_log :
      (command : ExecuteTradeCommand) (m : MarketSnapshot) (c : StrategyContext)
      (g : GeneratedSignal) (entry : SignalLogEntry) (j : Journal)
      → ports.load_snapshot command.symbol command.timeframe command.candle_limit ≡ ok m
      → entry.generated_signal ≡ g
      → Executed ports command j (
          and_then
            (ports.record_signal entry j)
            (λ _. decide_and_enter ports command c g (latest_candle m).close_price)
            (append_signal entry ∷ j))
  unfolding decide_and_enter
  after_log command m c g entry j loaded same = elim (Result-cases (ports.record_signal entry j)) [
    | inr (e, h) ↦ rw h (not_entered entry (err e) tt)
    | inl (u, h) ↦ rw h (elim (Result-cases (decision_from_signal g.signal)) [
      | inr (e, hd) ↦ rw hd (not_entered entry (err e) tt)
      | inl (decision, hd) ↦ rw hd (elim (Bool-cases (is_entry decision.action)) [
        | inr other ↦ rw other (not_entered entry (ok _) (ground arith))
        | inl entry_ ↦ rw entry_ (
            Tried-Executed ports command entry g.signal.direction m j _ loaded
              (ap (λ x. x.signal.direction) same)
              (enter-Tried ports command c g decision (latest_candle m).close_price
                (append_signal entry ∷ j)))
      ])
    ])
  ]

  pub execute-Executed :
      (command : ExecuteTradeCommand) (j : Journal)
      → Executed ports command j (execute ports command j)
  unfolding execute
  execute-Executed command j =
      elim (Result-cases
        (ports.load_snapshot command.symbol command.timeframe command.candle_limit)) [
          | inr (e, h) ↦ rw h (not_logged e)
          | inl (m, h) ↦
              rw h
                (elim (Result-cases (
                  ports.load_features m.first.symbol m.first.timeframe
                    (latest_candle m).closed_at)) [
                      | inr (e, hf) ↦ rw hf (not_logged e)
                      | inl (f, hf) ↦
                          rw hf
                            (elim (Result-cases (make_context m command.indicators (some f) [])) [
                              | inr (e, hc) ↦ rw hc (not_logged e)
                              | inl (c, hc) ↦ rw hc (elim (Result-cases (ports.generate c)) [
                                | inr (e, hg) ↦ rw hg (not_logged e)
                                | inl (g, hg) ↦
                                    rw hg
                                      (elim (Result-cases
                                        (make_log_entry command.signal_id command.generator_id g)) [
                                          | inr (e, hl) ↦ rw hl (not_logged e)
                                          | inl (entry, hl) ↦ rw hl (
                                              after_log command m c g entry j h
                                                (make_log_entry-ok _ _ g entry hl))
                                        ])
                              ])
                            ])
                    ])
        ]
