-- ===== src/Backtest/Exits.antt =====
-- What the helpers of a backtest promise: exits, windows of candles, and figures.
use gptrader_mw_v.Prelude.{
  ℕ, suc, zero, ◌+◌, ◌-◌, ◌≤◌, true, ◌≡◌, refl, subst, sym, ap, ◌∙◌, inl, inr, String, Option, none,
  some, List, [], ◌∷◌, ◌++◌, ok, Result-cases, Bool-cases, ℤ, pos, negsuc, pos_part, ◌-ℤ◌, int_laws,
  ◌≤ℤ◌, ◌<ℤ◌, leb_ℤ, arith,
}
use gptrader_mw_v.Decimal.{Decimal, Context, literal, minus, divide}
use gptrader_mw_v.Market.{count, Candle, MarketSnapshot, candles}
use gptrader_mw_v.Market.Snapshots.{make_snapshot-ok}
use gptrader_mw_v.Signal.{SignalDirection, long, short, wait}
use gptrader_mw_v.Strategy.{TakeProfitStopLossLevels}
use gptrader_mw_v.Backtest.{
  OpenPosition, BacktestTrade, BacktestPerformance, exit_at, exit_for_candle, drop_candles,
  take_candles, rolling_snapshot, count_trades, is_winning, is_losing,
}
use gptrader_mw_v.Backtest.Pricing.{win_rate_of, performance_of}

-- A candle reaches the stop loss, or the take profit, of a position in a direction.
abbrev pub ReachesStop : SignalDirection → TakeProfitStopLossLevels → Candle → Type 0
ReachesStop long l c = c.low_price ≤ℤ l.stop_loss
ReachesStop _ l c = l.stop_loss ≤ℤ c.high_price

abbrev pub ReachesProfit : SignalDirection → TakeProfitStopLossLevels → Candle → Type 0
ReachesProfit long l c = l.take_profit ≤ℤ c.high_price
ReachesProfit _ l c = c.low_price ≤ℤ l.take_profit

-- The exit of a candle: at the stop loss if it is reached, whether or not the take profit is; else at
-- the take profit if that is reached; else none.
pub data Exit (d : SignalDirection) (l : TakeProfitStopLossLevels) (c : Candle)
    : Option (Decimal × String) → Type 0 where
  stopped : ReachesStop d l c → Exit d l c (some (l.stop_loss, "stop_loss"))
  profited :
      ¬ (ReachesStop d l c) → ReachesProfit d l c → Exit d l c (some (l.take_profit, "take_profit"))
  kept : ¬ (ReachesStop d l c) → ¬ (ReachesProfit d l c) → Exit d l c none

exit_at-Exit :
    (d : SignalDirection) (l : TakeProfitStopLossLevels) (c : Candle) → Exit d l c (exit_at d l c)
exit_at-Exit long l c = elim (Bool-cases (leb_ℤ c.low_price l.stop_loss)) [
  | inl stop ↦ rw stop (stopped (ground arith))
  | inr no_stop ↦ rw no_stop (elim (Bool-cases (leb_ℤ l.take_profit c.high_price)) [
    | inl profit ↦ rw profit (profited (λ h. ground arith) (ground arith))
    | inr no_profit ↦ rw no_profit (kept (λ h. ground arith) (λ h. ground arith))
  ])
]
exit_at-Exit short l c = elim (Bool-cases (leb_ℤ l.stop_loss c.high_price)) [
  | inl stop ↦ rw stop (stopped (ground arith))
  | inr no_stop ↦ rw no_stop (elim (Bool-cases (leb_ℤ c.low_price l.take_profit)) [
    | inl profit ↦ rw profit (profited (λ h. ground arith) (ground arith))
    | inr no_profit ↦ rw no_profit (kept (λ h. ground arith) (λ h. ground arith))
  ])
]
exit_at-Exit wait l c = elim (Bool-cases (leb_ℤ l.stop_loss c.high_price)) [
  | inl stop ↦ rw stop (stopped (ground arith))
  | inr no_stop ↦ rw no_stop (elim (Bool-cases (leb_ℤ c.low_price l.take_profit)) [
    | inl profit ↦ rw profit (profited (λ h. ground arith) (ground arith))
    | inr no_profit ↦ rw no_profit (kept (λ h. ground arith) (λ h. ground arith))
  ])
]

-- A position without levels has no exit in a candle; one with levels leaves at the stop loss if the
-- candle reaches it, else at the take profit if the candle reaches that, else not.
pub exit_for_candle-Exit :
    (p : OpenPosition) (c : Candle)
    → (p.levels ≡ none → exit_for_candle p c ≡ none)
      × ((l : TakeProfitStopLossLevels)
          → p.levels ≡ some l
          → Exit p.direction l c (exit_for_candle p c))
unfolding exit_for_candle
exit_for_candle-Exit p c = (λ h. simp h refl, λ l h. simp h (exit_at-Exit p.direction l c))

take-prefix : (n : ℕ) (cs : List Candle) → (after : List Candle) × (cs ≡ take_candles n cs ++ after)
unfolding take_candles
take-prefix zero cs = (cs, refl)
take-prefix (suc n) [] = ([], refl)
take-prefix (suc n) (c ∷ cs) = let (after, h) = take-prefix n cs in (after, ap (λ l. c ∷ l) h)

pub drop-suffix :
    (n : ℕ) (cs : List Candle)
    → (before : List Candle) × (cs ≡ before ++ drop_candles n cs)
      × (count (drop_candles n cs) ≡ count cs - n)
unfolding drop_candles
drop-suffix zero cs = ([], refl, omega arith)
drop-suffix (suc n) [] = ([], refl, omega arith)
drop-suffix (suc n) (c ∷ cs) =
    let (before, h, k) = drop-suffix n cs in (c ∷ before, ap (λ l. c ∷ l) h, omega (arith, k))

count-take : (n : ℕ) (cs : List Candle) → count (take_candles n cs) ≤ n
unfolding take_candles
count-take zero cs = omega arith
count-take (suc n) [] = omega arith
count-take (suc n) (c ∷ cs) = omega (arith, count-take n cs)

window_size :
    (index n : ℕ) (limit : ℤ)
    → pos 1 ≤ℤ limit
    → n ≤ index + 1
    → pos (n - pos_part (pos (index + 1) -ℤ limit)) ≤ℤ limit
window_size index n (pos k) positive h = omega int_laws
window_size index n (negsuc k) positive h = absurd (omega arith)

-- A rolling snapshot is a window of the market that ends with the candle of its index, so no candle
-- after that one is seen, and it holds no more candles than the limit.
pub record Window (market m : MarketSnapshot) (index : ℕ) (limit : ℤ) : Type 0 where
  pub before : List Candle
  pub after : List Candle
  pub split : candles market ≡ (before ++ candles m) ++ after
  pub no_later : before ++ candles m ≡ take_candles (index + 1) (candles market)
  pub bounded : pos (count (candles m)) ≤ℤ limit

-- When the limit is positive and `rolling_snapshot` returns, it returns such a window.
pub rolling_snapshot-Window :
    (market m : MarketSnapshot) (index : ℕ) (limit : ℤ)
    → pos 1 ≤ℤ limit
    → rolling_snapshot market index limit ≡ ok m
    → Window market m index limit
unfolding rolling_snapshot
rolling_snapshot-Window market m index limit positive h =
    let taken = take_candles (index + 1) (candles market) in
    let start = pos_part (pos (index + 1) -ℤ limit) in
    let (same, _, _, _) = make_snapshot-ok (drop_candles start taken) m h in
    let (after, whole) = take-prefix (index + 1) (candles market) in
    let (before, cut, counted) = drop-suffix start taken in
    record {
      before = before;
      after = after;
      split = whole ∙ ap (λ l. l ++ after) (cut ∙ ap (λ l. before ++ l) (sym same));
      no_later = ap (λ l. before ++ l) same ∙ sym cut;
      bounded =
          subst (λ n. pos n ≤ℤ limit) (sym (ap count same ∙ counted))
            (window_size index (count taken) limit positive
              (count-take (index + 1) (candles market)));
    }

-- The trades of a list that made money and that lost money, and how many there are.
pub data Tally : List BacktestTrade → ℕ → ℕ → ℕ → Type 0 where
  none_made : Tally [] 0 0 0
  won :
      (t : BacktestTrade) {ts : List BacktestTrade} {wins losses all : ℕ}
      → pos 1 ≤ℤ t.net_pnl
      → Tally ts wins losses all
      → Tally (t ∷ ts) (suc wins) losses (suc all)
  lost :
      (t : BacktestTrade) {ts : List BacktestTrade} {wins losses all : ℕ}
      → t.net_pnl <ℤ pos 0
      → Tally ts wins losses all
      → Tally (t ∷ ts) wins (suc losses) (suc all)
  even :
      (t : BacktestTrade) {ts : List BacktestTrade} {wins losses all : ℕ}
      → t.net_pnl ≡ pos 0
      → Tally ts wins losses all
      → Tally (t ∷ ts) wins losses (suc all)

resize :
    (ts : List BacktestTrade) (w w' l l' n n' : ℕ)
    → w ≡ w'
    → l ≡ l'
    → n ≡ n'
    → Tally ts w l n
    → Tally ts w' l' n'
resize ts w w' l l' n n' hw hl hn t =
    subst (λ x. Tally ts x l' n') hw
      (subst (λ x. Tally ts w x n') hl (subst (λ x. Tally ts w l x) hn t))

count_trades-Tally :
    (ts : List BacktestTrade)
    → Tally ts
        (count_trades is_winning ts)
        (count_trades is_losing ts)
        (count_trades (λ _. true) ts)
unfolding count_trades
count_trades-Tally [] = none_made
count_trades-Tally (t ∷ ts) =
    let rest = count_trades-Tally ts in
    elim (Bool-cases (is_winning t)) [
      | inl gain ↦
          resize (t ∷ ts) _ _ _ _ _ _ (ground arith) (ground arith) (ground arith)
            (won t (ground arith) rest)
      | inr no_gain ↦ elim (Bool-cases (is_losing t)) [
        | inl loss ↦
            resize (t ∷ ts) _ _ _ _ _ _ (ground arith) (ground arith) (ground arith)
              (lost t (ground arith) rest)
        | inr no_loss ↦
            resize (t ∷ ts) _ _ _ _ _ _ (ground arith) (ground arith) (ground arith)
              (even t (ground arith) rest)
      ]
    ]

wins_and_losses :
    (ts : List BacktestTrade)
    → count_trades is_winning ts + count_trades is_losing ts ≤ count_trades (λ _. true) ts
unfolding count_trades
wins_and_losses [] = omega arith
wins_and_losses (t ∷ ts) = ground (arith, wins_and_losses ts)

module _ ⦃context : Context⦄ where
  -- The share of the trades that made money, which is zero without trades.
  abbrev pub IsRate : ℕ → ℕ → Decimal → Type 0
  IsRate wins zero rate = rate ≡ pos 0
  IsRate wins (suc n) rate = divide (literal wins 1) (literal (suc n) 1) ≡ ok rate

  win_rate_of-IsRate :
      (wins all : ℕ) (rate : Decimal) → win_rate_of wins all ≡ ok rate → IsRate wins all rate
  win_rate_of-IsRate wins zero rate h = ground arith
  win_rate_of-IsRate wins (suc n) rate h = h

  -- What `_performance` reports of a list of trades.
  pub record Performed (initial final : Decimal) (ts : List BacktestTrade) (drawdown : Decimal)
      (p : BacktestPerformance) : Type 0 where
    pub equity : (p.initial_equity ≡ initial) × (p.final_equity ≡ final)
    pub net : p.net_pnl ≡ minus final initial
    pub returned : divide p.net_pnl initial ≡ ok p.return_ratio
    pub drawn : p.max_drawdown_ratio ≡ drawdown
    pub tallied : Tally ts p.winning_trade_count p.losing_trade_count p.trade_count
    pub within : p.winning_trade_count + p.losing_trade_count ≤ p.trade_count
    pub rate : IsRate p.winning_trade_count p.trade_count p.win_rate

  -- Whatever `_performance` returns is the difference of the equities, its ratio to the initial one, the
  -- drawdown it was given, the numbers of trades with a profit, with a loss and in all, and the share of
  -- those with a profit, which is zero without trades.
  pub performance_of-Performed :
      (initial final : Decimal) (ts : List BacktestTrade) (drawdown : Decimal)
      (p : BacktestPerformance)
      → performance_of initial final ts drawdown ≡ ok p
      → Performed initial final ts drawdown p
  unfolding performance_of
  performance_of-Performed initial final ts drawdown p h =
      elim (Result-cases (win_rate_of (count_trades is_winning ts) (count_trades (λ _. true) ts))) [
        | inr (e, hw) ↦ ground arith
        | inl (rate, hw) ↦ elim (Result-cases (divide (minus final initial) initial)) [
          | inr (e, hd) ↦ ground arith
          | inl (ratio, hd) ↦ record {
            equity = (ground arith, ground arith);
            net = ground arith;
            returned = ground arith;
            drawn = ground arith;
            tallied =
                resize ts _ _ _ _ _ _ (ground arith) (ground arith) (ground arith)
                  (count_trades-Tally ts);
            within = ground (arith, wins_and_losses ts);
            rate = win_rate_of-IsRate p.winning_trade_count p.trade_count p.win_rate (ground arith);
          }
        ]
      ]
