-- ===== src/Backtest/Runs.antt =====
-- What a whole backtest leaves: its accounts and the order of its trades.
use gptrader_mw_v.Prelude.{
  ℕ, suc, ◌≤◌, ◌≡◌, refl, subst, sym, inl, inr, Option, none, some, List, [], ◌∷◌, ok, Result-cases,
  OnOk, pos, ◌≤ℤ◌, arith,
}
use gptrader_mw_v.Decimal.{Decimal, Context}
use gptrader_mw_v.Market.{Candle, MarketSnapshot, candles, last, latest_candle}
use gptrader_mw_v.Backtest.{BacktestPorts, BacktestStrategyCommand, OpenPosition}
use gptrader_mw_v.Backtest.Pricing.{performance_of}
use gptrader_mw_v.Backtest.Simulator.{
  Simulation, BacktestSimulation, book_trade, close_at, step, run, latest_of, close_rest, start,
  finish, simulate_backtest,
}
use gptrader_mw_v.Backtest.Accounts.{
  Ledger, account, opening, Sequential, Sound, book_trade-Sound, InOrder,
}
use gptrader_mw_v.Backtest.Rounds.{step-Sound}

module _ ⦃context : Context⦄ (ports : BacktestPorts) (command : BacktestStrategyCommand)
    (market : MarketSnapshot) where
  -- The closing times do not decrease, from a time on; the last of them.
  abbrev pub Closing : ℕ → List Candle → Type 0
  Closing t [] = Unit
  Closing t (c ∷ cs) = (t ≤ c.closed_at) × Closing c.closed_at cs

  abbrev end_of : ℕ → List Candle → ℕ
  end_of t [] = t
  end_of t (c ∷ cs) = end_of c.closed_at cs

  run-Sound :
      (cs : List Candle) (initial : Decimal) (t index : ℕ) (s : Simulation)
      → Sound initial t s
      → Closing t cs
      → OnOk (Sound initial (end_of t cs)) (run ports command market s index cs)
  unfolding run
  run-Sound [] initial t index s k ordered = k
  run-Sound (c ∷ cs) initial t index s k (later, ordered) =
      let stepped = step-Sound ports command market initial t index s c k later in
      elim (Result-cases (step ports command market s index c)) [
        | inr (e, h) ↦ rw h tt
        | inl (s1, h) ↦ rw h (
            run-Sound cs initial c.closed_at (suc index) s1
              (subst (OnOk (Sound initial c.closed_at)) h stepped) ordered)
      ]

  start-Sound : (t : ℕ) → Sound command.initial_equity t (start ports command market)
  unfolding account
  start-Sound t = record {
    accounted = refl;
    below_peak = omega arith;
    peak_kept = omega arith;
    drawdown_kept = omega arith;
    in_order = omega arith;
  }

  -- What a finished backtest reports: its trades follow one another up to the close of the last candle,
  -- and its figures are those of the accounts of its trades.
  pub record Reported (t : ℕ) (b : BacktestSimulation) : Type 0 where
    pub ledger : Ledger
    pub accounted : account (opening command.initial_equity) b.trades ≡ ok ledger
    pub performed :
        performance_of command.initial_equity ledger.equity b.trades ledger.drawdown
        ≡ ok b.performance
    pub sequential : Sequential 0 b.trades t
    pub below_peak : ledger.equity ≤ℤ ledger.peak
    pub peak_kept : command.initial_equity ≤ℤ ledger.peak
    pub drawdown_kept : pos 0 ≤ℤ ledger.drawdown

  close_rest-Sound :
      (t : ℕ) (s : Simulation) (o : Option OpenPosition)
      → Sound command.initial_equity t s
      → s.position ≡ o
      → t ≡ (latest_candle market).closed_at
      → OnOk
          (λ s'. Sound command.initial_equity t s' × (s'.position ≡ none))
          (close_rest ports command market s o)
  unfolding close_rest
  close_rest-Sound t s none k held now = (k, held)
  close_rest-Sound t s (some p) k held now =
      let c = latest_candle market in
      elim (Result-cases
        (book_trade s (close_at ports command market p c c.close_price "end_of_data"))) [
          | inr (e, h) ↦ rw h tt
          | inl (s2, h) ↦ rw h (
              book_trade-Sound command.initial_equity t s s2 p c c.close_price "end_of_data"
                command.fee_rate command.slippage_rate k held (sym now) h)
        ]

  finish-Reported :
      (t : ℕ) (s : Simulation)
      → Sound command.initial_equity t s
      → t ≡ (latest_candle market).closed_at
      → OnOk (Reported t) (finish ports command market s)
  unfolding finish
  finish-Reported t s k now =
      let closed = close_rest-Sound t s s.position k refl now in
      elim (Result-cases (latest_of ports command market s.latest)) [
        | inr (e, h) ↦ rw h tt
        | inl (x, h) ↦ rw h (elim (Result-cases (close_rest ports command market s s.position)) [
          | inr (e, hc) ↦ rw hc tt
          | inl (s2, hc) ↦
              let (k2, free) =
                subst (OnOk (λ s'. Sound command.initial_equity t s' × (s'.position ≡ none))) hc
                  closed in
              rw hc
                (elim (Result-cases (
                  performance_of command.initial_equity s2.equity s2.trades
                    s2.max_drawdown_ratio)) [
                      | inr (e, hp) ↦ rw hp tt
                      | inl (perf, hp) ↦ rw hp (record {
                        ledger = record {
                          equity = s2.equity;
                          peak = s2.peak_equity;
                          drawdown = s2.max_drawdown_ratio;
                        };
                        accounted = k2.accounted;
                        performed = hp;
                        sequential = subst (InOrder t s2.trades) free k2.in_order;
                        below_peak = k2.below_peak;
                        peak_kept = k2.peak_kept;
                        drawdown_kept = k2.drawdown_kept;
                      })
                    ])
        ])
      ]

  end_of-last : (c : Candle) (cs : List Candle) → end_of c.closed_at cs ≡ (last c cs).closed_at
  end_of-last c [] = refl
  end_of-last c (d ∷ ds) = end_of-last d ds

  -- When the candles close in order and `simulate_backtest` returns, its trades follow one another, so
  -- that at most one position is open at any time; and the final equity, the drawdown and the counts
  -- it reports are those that its trades give, taken one after the other from the initial equity,
  -- with the equity at or below its peak, the peak at or above the initial equity, and a drawdown
  -- that is not negative.
  pub simulate_backtest-Reported :
      Closing 0 (candles market)
      → OnOk (Reported (latest_candle market).closed_at) (simulate_backtest ports command market)
  unfolding simulate_backtest
  simulate_backtest-Reported ordered =
      let ran =
        run-Sound (candles market) command.initial_equity 0 0 (start ports command market)
          (start-Sound 0) ordered in
      let now = end_of-last market.first market.others in
      elim (Result-cases
        (run ports command market (start ports command market) 0 (candles market))) [
          | inr (e, h) ↦ rw h tt
          | inl (s, h) ↦
              let sound =
                subst (λ t. Sound command.initial_equity t s) now
                  (subst (OnOk (Sound command.initial_equity (end_of 0 (candles market)))) h ran) in
              rw h (finish-Reported (latest_candle market).closed_at s sound refl)
        ]
