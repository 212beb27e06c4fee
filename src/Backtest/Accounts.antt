-- ===== src/Backtest/Accounts.antt =====
-- The accounts of a backtest: what the trades say, and how the loop keeps them.
use gptrader_mw_v.Prelude.{
  ℕ, ◌≤◌, ◌≡◌, refl, subst, ◌∙◌, inl, inr, String, Option, none, some, List, [], ◌∷◌, ◌++◌, Result,
  ok, ◌>>=◌, Result-cases, pos, ◌≤ℤ◌, max_ℤ, arith,
}
use gptrader_mw_v.Decimal.{Decimal, Context, plus}
use gptrader_mw_v.Market.{Candle}
use gptrader_mw_v.Backtest.{OpenPosition, BacktestTrade}
use gptrader_mw_v.Backtest.Pricing.{close_trade, drawdown_ratio}
use gptrader_mw_v.Backtest.Simulator.{Simulation, book_trade}

-- Equity, its peak and the largest drawdown.
pub record Ledger : Type 0 where
  pub equity : Decimal
  pub peak : Decimal
  pub drawdown : Decimal

-- The trades follow one another: each enters no earlier than the one before has ended and ends no
-- earlier than it enters, from one time to another.
abbrev pub Sequential : ℕ → List BacktestTrade → ℕ → Type 0
Sequential a [] b = a ≤ b
Sequential a (t ∷ ts) b =
    (a ≤ t.entry_time) × (t.entry_time ≤ t.exit_time) × Sequential t.exit_time ts b

Sequential-later :
    (a b c : ℕ) (ts : List BacktestTrade) → b ≤ c → Sequential a ts b → Sequential a ts c
Sequential-later a b c [] h s = omega arith
Sequential-later a b c (t ∷ ts) h (x, y, s) = (x, y, Sequential-later t.exit_time b c ts h s)

Sequential-snoc :
    (a b c : ℕ) (ts : List BacktestTrade) (t : BacktestTrade)
    → Sequential a ts b
    → b ≤ t.entry_time
    → t.entry_time ≤ t.exit_time
    → t.exit_time ≤ c
    → Sequential a (ts ++ t ∷ []) c
Sequential-snoc a b c [] t s h k l = (omega arith, k, l)
Sequential-snoc a b c (u ∷ us) t (x, y, s) h k l =
    (x, y, Sequential-snoc u.exit_time b c us t s h k l)

module _ ⦃context : Context⦄ where
  -- The accounts of a list of trades, one trade after the other.
  unfoldable pub account : Ledger → List BacktestTrade → Result Ledger
  account l [] = ok l
  account l (t ∷ ts) = do
    let equity = plus l.equity t.net_pnl
    let peak = max_ℤ l.peak equity
    ratio ← drawdown_ratio equity peak
    account (record { equity = equity; peak = peak; drawdown = max_ℤ l.drawdown ratio }) ts

  account-++ :
      (ts us : List BacktestTrade) (l m : Ledger)
      → account l ts ≡ ok m
      → account l (ts ++ us) ≡ account m us
  unfolding account
  account-++ [] us l m h = ground arith
  account-++ (t ∷ ts) us l m h =
      elim (Result-cases
        (drawdown_ratio (plus l.equity t.net_pnl) (max_ℤ l.peak (plus l.equity t.net_pnl)))) [
          | inl (ratio, hr) ↦ rw hr (
              account-++ ts us
                (record {
                  equity = plus l.equity t.net_pnl;
                  peak = max_ℤ l.peak (plus l.equity t.net_pnl);
                  drawdown = max_ℤ l.drawdown ratio;
                })
                m (ground arith))
          | inr (e, hr) ↦ ground arith
        ]

  account-one :
      (l : Ledger) (t : BacktestTrade) (ratio : Decimal)
      → drawdown_ratio (plus l.equity t.net_pnl) (max_ℤ l.peak (plus l.equity t.net_pnl)) ≡ ok ratio
      → account l (t ∷ [])
        ≡ ok (record {
          equity = plus l.equity t.net_pnl;
          peak = max_ℤ l.peak (plus l.equity t.net_pnl);
          drawdown = max_ℤ l.drawdown ratio;
        })
  unfolding account
  account-one l t ratio h = rw h refl

  abbrev pub ledger_of : Simulation → Ledger
  ledger_of s = record { equity = s.equity; peak = s.peak_equity; drawdown = s.max_drawdown_ratio }

  abbrev pub opening : Decimal → Ledger
  opening equity = record { equity = equity; peak = equity; drawdown = pos 0 }

  -- The trades so far follow one another, and the open position entered after them, all by a time.
  abbrev pub InOrder : ℕ → List BacktestTrade → Option OpenPosition → Type 0
  InOrder t ts none = Sequential 0 ts t
  InOrder t ts (some p) = Sequential 0 ts p.entry_time × (p.entry_time ≤ t)

  -- What the loop keeps, by the closing time of the latest candle.
  pub record Sound (initial : Decimal) (t : ℕ) (s : Simulation) : Type 0 where
    pub accounted : account (opening initial) s.trades ≡ ok (ledger_of s)
    pub below_peak : s.equity ≤ℤ s.peak_equity
    pub peak_kept : initial ≤ℤ s.peak_equity
    pub drawdown_kept : pos 0 ≤ℤ s.max_drawdown_ratio
    pub in_order : InOrder t s.trades s.position

  InOrder-later :
      (t u : ℕ) (ts : List BacktestTrade) (o : Option OpenPosition)
      → t ≤ u
      → InOrder t ts o
      → InOrder u ts o
  InOrder-later t u ts none h k = Sequential-later 0 t u ts h k
  InOrder-later t u ts (some p) h (k, l) = (k, omega arith)

  pub Sound-later :
      (initial : Decimal) (t u : ℕ) (s : Simulation) → t ≤ u → Sound initial t s → Sound initial u s
  Sound-later initial t u s h k = record {
    accounted = k.accounted;
    below_peak = k.below_peak;
    peak_kept = k.peak_kept;
    drawdown_kept = k.drawdown_kept;
    in_order = InOrder-later t u s.trades s.position h k.in_order;
  }

  closed_times :
      (p : OpenPosition) (candle : Candle) (price : Decimal) (reason : String)
      (fee slippage : Decimal)
      → ((close_trade p candle price reason fee slippage).entry_time ≡ p.entry_time)
        × ((close_trade p candle price reason fee slippage).exit_time ≡ candle.closed_at)
  unfolding close_trade
  closed_times p candle price reason fee slippage = (refl, refl)

  -- Booking the trade that closes the open position at a candle keeps the accounts.
  pub book_trade-Sound :
      (initial : Decimal) (t : ℕ) (s s' : Simulation) (p : OpenPosition) (candle : Candle)
      (price : Decimal) (reason : String) (fee slippage : Decimal)
      → Sound initial t s
      → s.position ≡ some p
      → candle.closed_at ≡ t
      → book_trade s (close_trade p candle price reason fee slippage) ≡ ok s'
      → Sound initial t s' × (s'.position ≡ none)
  unfolding book_trade
  book_trade-Sound initial t s s' p candle price reason fee slippage k held now h =
      let trade = close_trade p candle price reason fee slippage in
      let equity = plus s.equity trade.net_pnl in
      let peak = max_ℤ s.peak_equity equity in
      elim (Result-cases (drawdown_ratio equity peak)) [
        | inr (e, hr) ↦ ground arith
        | inl (ratio, hr) ↦
            let s1 : Simulation = record {
              equity = equity;
              peak_equity = peak;
              max_drawdown_ratio = max_ℤ s.max_drawdown_ratio ratio;
              trades = s.trades ++ trade ∷ [];
              position = none;
              latest = s.latest;
            } in
            let e : s' ≡ s1 = ground arith in
            let times = closed_times p candle price reason fee slippage in
            let order : InOrder t s.trades (some p) = subst (InOrder t s.trades) held k.in_order in
            rw e (
              record {
                accounted =
                    account-++ s.trades (trade ∷ []) (opening initial) (ledger_of s) k.accounted
                    ∙ account-one (ledger_of s) trade ratio hr;
                below_peak = ground arith;
                peak_kept = ground (arith, k.peak_kept);
                drawdown_kept = ground (arith, k.drawdown_kept);
                in_order =
                    Sequential-snoc 0 p.entry_time t s.trades trade order.0 (omega (arith, times.0))
                      (omega (arith, times.0, times.1, now, order.1)) (omega (arith, times.1, now));
              },
              refl,
            )
      ]
