-- ===== src/Backtest/Rounds.antt =====
-- One round of a backtest keeps the accounts and the order of the trades.
use gptrader_mw_v.Prelude.{
  ℕ, ◌≤◌, Bool, ◌≡◌, refl, subst, inl, inr, String, Option, none, some, Result-cases, Bool-cases,
  Option-cases, OnOk, ltb, arith,
}
use gptrader_mw_v.Decimal.{Decimal, Context, divide}
use gptrader_mw_v.Market.{Candle, MarketSnapshot}
use gptrader_mw_v.Signal.{is_wait}
use gptrader_mw_v.Strategy.{StrategyContext, StrategyResult, TakeProfitStopLossLevels}
use gptrader_mw_v.Backtest.{
  BacktestPorts, BacktestStrategyCommand, OpenPosition, exit_for_candle, is_opposite_signal,
}
use gptrader_mw_v.Backtest.Pricing.{entry_price_of}
use gptrader_mw_v.Backtest.Simulator.{
  Simulation, book_trade, or_nothing, context_at, close_at, react, manage_exit, manage_position,
  sized_notional, levels_for, open_with, open_trade, enter_on, try_enter, step,
}
use gptrader_mw_v.Backtest.Accounts.{Sound, Sound-later, book_trade-Sound, InOrder}

module _ ⦃context : Context⦄ (ports : BacktestPorts) (command : BacktestStrategyCommand)
    (market : MarketSnapshot) where
  evaluated :
      (initial : Decimal) (t : ℕ) (s : Simulation) (x : StrategyResult × StrategyContext)
      → Sound initial t s
      → Sound initial t (record s { latest = some x })
  evaluated initial t s x k = record {
    accounted = k.accounted;
    below_peak = k.below_peak;
    peak_kept = k.peak_kept;
    drawdown_kept = k.drawdown_kept;
    in_order = k.in_order;
  }

  abbrev Managed : Decimal → ℕ → Simulation × Bool → Type 0
  Managed initial t (s, exited) = Sound initial t s

  react-Managed :
      (initial : Decimal) (t : ℕ) (s : Simulation) (p : OpenPosition) (candle : Candle)
      (c : StrategyContext) (o : Option StrategyResult)
      → Sound initial t s
      → s.position ≡ some p
      → candle.closed_at ≡ t
      → OnOk (Managed initial t) (react ports command market s p candle c o)
  react-Managed initial t s p candle c none k held now = k
  react-Managed initial t s p candle c (some r) k held now =
      let s1 : Simulation = record s { latest = some (r, c) } in
      let trade = close_at ports command market p candle candle.close_price "opposite_signal" in
      elim (Bool-cases (is_opposite_signal p.direction r.signal.direction)) [
        | inr same ↦ rw same (evaluated initial t s (r, c) k)
        | inl opposite ↦ rw opposite (elim (Result-cases (book_trade s1 trade)) [
          | inr (e, h) ↦ rw h tt
          | inl (s2, h) ↦
              rw h
                (book_trade-Sound initial t s1 s2 p candle candle.close_price "opposite_signal"
                  command.fee_rate command.slippage_rate (evaluated initial t s (r, c) k) held now
                  h).0
        ])
      ]

  manage_exit-Managed :
      (initial : Decimal) (t index : ℕ) (s : Simulation) (p : OpenPosition) (candle : Candle)
      (o : Option (Decimal × String))
      → Sound initial t s
      → s.position ≡ some p
      → candle.closed_at ≡ t
      → OnOk (Managed initial t) (manage_exit ports command market s p index candle o)
  manage_exit-Managed initial t index s p candle (some (price, reason)) k held now =
      let trade = close_at ports command market p candle price reason in
      elim (Result-cases (book_trade s trade)) [
        | inr (e, h) ↦ rw h tt
        | inl (s2, h) ↦
            rw h
              (book_trade-Sound initial t s s2 p candle price reason command.fee_rate
                command.slippage_rate k held now h).0
      ]
  manage_exit-Managed initial t index s p candle none k held now =
      elim (Result-cases (context_at ports command market index)) [
        | inr (e, h) ↦ rw h tt
        | inl (c, h) ↦ rw h (elim (Result-cases (or_nothing (ports.evaluate c))) [
          | inr (e, hr) ↦ rw hr tt
          | inl (o, hr) ↦ rw hr (react-Managed initial t s p candle c o k held now)
        ])
      ]

  manage_position-Managed :
      (initial : Decimal) (t index : ℕ) (s : Simulation) (candle : Candle) (o : Option OpenPosition)
      → Sound initial t s
      → s.position ≡ o
      → candle.closed_at ≡ t
      → OnOk (Managed initial t) (manage_position ports command market s index candle o)
  unfolding manage_position
  manage_position-Managed initial t index s candle none k held now = k
  manage_position-Managed initial t index s candle (some p) k held now =
      elim (Bool-cases (ltb 0 index)) [
        | inr first ↦ rw first k
        | inl later ↦
            rw later
              (manage_exit-Managed initial t index s p candle (exit_for_candle p candle) k held now)
      ]

  open_with-Sound :
      (initial : Decimal) (t : ℕ) (s : Simulation) (candle : Candle) (r : StrategyResult)
      (price quantity : Decimal) (o : Option (Option TakeProfitStopLossLevels))
      → Sound initial t s
      → s.position ≡ none
      → candle.closed_at ≡ t
      → Sound initial t (open_with ports command market s candle r price quantity o)
  open_with-Sound initial t s candle r price quantity none k free now = k
  open_with-Sound initial t s candle r price quantity (some levels) k free now = record {
    accounted = k.accounted;
    below_peak = k.below_peak;
    peak_kept = k.peak_kept;
    drawdown_kept = k.drawdown_kept;
    in_order = rw now (subst (InOrder t s.trades) free k.in_order, omega arith);
  }

  open_trade-Sound :
      (initial : Decimal) (t : ℕ) (s : Simulation) (candle : Candle) (c : StrategyContext)
      (r : StrategyResult)
      → Sound initial t s
      → s.position ≡ none
      → candle.closed_at ≡ t
      → OnOk (Sound initial t) (open_trade ports command market s candle c r)
  unfolding open_trade
  open_trade-Sound initial t s candle c r k free now =
      let price = entry_price_of r.signal.direction candle.close_price command.slippage_rate in
      elim (Result-cases (sized_notional ports command market s r)) [
        | inr (e, h) ↦ rw h tt
        | inl (notional, h) ↦ rw h (elim (Result-cases (divide notional price)) [
          | inr (e, hd) ↦ rw hd tt
          | inl (quantity, hd) ↦ rw hd (elim (Result-cases (levels_for ports command market r c)) [
            | inr (e, hl) ↦ rw hl tt
            | inl (levels, hl) ↦
                rw hl (open_with-Sound initial t s candle r price quantity levels k free now)
          ])
        ])
      ]

  enter_on-Sound :
      (initial : Decimal) (t : ℕ) (s : Simulation) (candle : Candle) (c : StrategyContext)
      (o : Option StrategyResult)
      → Sound initial t s
      → s.position ≡ none
      → candle.closed_at ≡ t
      → OnOk (Sound initial t) (enter_on ports command market s candle c o)
  enter_on-Sound initial t s candle c none k free now = k
  enter_on-Sound initial t s candle c (some r) k free now =
      elim (Bool-cases (is_wait r.signal.direction)) [
        | inl waiting ↦ rw waiting (evaluated initial t s (r, c) k)
        | inr directed ↦ rw directed (
            open_trade-Sound initial t (record s { latest = some (r, c) }) candle c r
              (evaluated initial t s (r, c) k) free now)
      ]

  try_enter-Sound :
      (initial : Decimal) (t index : ℕ) (s : Simulation) (candle : Candle)
      → Sound initial t s
      → s.position ≡ none
      → candle.closed_at ≡ t
      → OnOk (Sound initial t) (try_enter ports command market s index candle)
  unfolding try_enter
  try_enter-Sound initial t index s candle k free now =
      elim (Result-cases (context_at ports command market index)) [
        | inr (e, h) ↦ rw h tt
        | inl (c, h) ↦ rw h (elim (Result-cases (or_nothing (ports.evaluate c))) [
          | inr (e, hr) ↦ rw hr tt
          | inl (o, hr) ↦ rw hr (enter_on-Sound initial t s candle c o k free now)
        ])
      ]

  -- One round of the loop keeps the accounts and the order, up to the closing time of its candle.
  pub step-Sound :
      (initial : Decimal) (t index : ℕ) (s : Simulation) (candle : Candle)
      → Sound initial t s
      → t ≤ candle.closed_at
      → OnOk (Sound initial candle.closed_at) (step ports command market s index candle)
  unfolding step
  step-Sound initial t index s candle k later =
      let now = candle.closed_at in
      let managed =
        manage_position-Managed initial now index s candle s.position
          (Sound-later initial t now s later k) refl refl in
      elim (Result-cases (manage_position ports command market s index candle s.position)) [
        | inr (e, h) ↦ rw h tt
        | inl ((s1, exited), h) ↦
            let sound : Sound initial now s1 = subst (OnOk (Managed initial now)) h managed in
            rw h (elim (Option-cases s1.position) [
              | inr (p, held) ↦ simp held sound
              | inl free ↦ elim (Bool-cases exited) [
                | inl out ↦ simp free (rw out sound)
                | inr in_ ↦
                    simp free (rw in_ (try_enter-Sound initial now index s1 candle sound free refl))
              ]
            ])
      ]
