-- ===== src/Backtest/Simulator.antt =====
-- `simulate_backtest` (application/usecases/research/backtest_simulator.py): the loop over the candles.
use gptrader_mw_v.Prelude.{
  ℕ, suc, Bool, true, false, ◌||◌, String, Option, none, some, List, [], ◌∷◌, ◌++◌, Result, ok, err,
  value_error, key_error, ◌>>=◌, is_some, pos, max_ℤ, ltb, if◌then◌else◌,
}
use gptrader_mw_v.Decimal.{Decimal, Context, plus, times, divide}
use gptrader_mw_v.Market.{Candle, MarketSnapshot, candles, latest_candle}
use gptrader_mw_v.Signal.{is_wait, make_decision}
use gptrader_mw_v.Strategy.{StrategyContext, StrategyResult, TakeProfitStopLossLevels, make_context}
use gptrader_mw_v.Risk.{decide_fixed}
use gptrader_mw_v.Backtest.{
  BacktestPorts, BacktestStrategyCommand, OpenPosition, BacktestTrade, BacktestPerformance,
  exit_for_candle, rolling_snapshot, is_opposite_signal, entry_action, levels_from_signal_metadata,
}
use gptrader_mw_v.Backtest.Pricing.{
  entry_price_of, close_trade, drawdown_ratio, backtest_exposure_limit, performance_of,
}

-- The local variables of the loop. `latest_result` and `latest_context` are always set together.
pub record Simulation : Type 0 where
  pub equity : Decimal
  pub peak_equity : Decimal
  pub max_drawdown_ratio : Decimal
  pub trades : List BacktestTrade
  pub position : Option OpenPosition
  pub latest : Option (StrategyResult × StrategyContext)

pub record BacktestSimulation : Type 0 where
  pub strategy_result : StrategyResult
  pub run_context : StrategyContext
  pub trades : List BacktestTrade
  pub performance : BacktestPerformance

-- `except KeyError`, with nothing as the result.
abbrev pub or_nothing {ℓ} : {A : Type ℓ} → Result A → Result (Option A)
or_nothing (ok a) = ok (some a)
or_nothing (err (key_error k)) = ok none
or_nothing (err e) = err e

-- `except ValueError: continue` around levels: nothing is entered.
abbrev pub or_skip {ℓ} : {A : Type ℓ} → Result A → Result (Option A)
or_skip (ok a) = ok (some a)
or_skip (err (value_error m)) = ok none
or_skip (err e) = err e

module _ ⦃context : Context⦄ where
  -- The five lines that book a closed trade; the position is reset.
  unfoldable pub book_trade : Simulation → BacktestTrade → Result Simulation
  unfolding drawdown_ratio
  book_trade s trade = do
    let equity = plus s.equity trade.net_pnl
    let peak_equity = max_ℤ s.peak_equity equity
    ratio ← drawdown_ratio equity peak_equity
    ok (record {
      equity = equity;
      peak_equity = peak_equity;
      max_drawdown_ratio = max_ℤ s.max_drawdown_ratio ratio;
      trades = s.trades ++ trade ∷ [];
      position = none;
      latest = s.latest;
    })

  module _ (ports : BacktestPorts) (command : BacktestStrategyCommand)
      (market : MarketSnapshot) where
    -- The snapshot up to a candle, its indicators and the strategy's context.
    unfoldable pub context_at : ℕ → Result StrategyContext
    unfolding rolling_snapshot
    context_at index = do
      snapshot ← rolling_snapshot market index command.candle_limit
      indicators ← ports.make_indicators snapshot
      make_context snapshot indicators none command.metadata

    abbrev pub close_at : OpenPosition → Candle → Decimal → String → BacktestTrade
    close_at position candle price reason =
        close_trade position candle price reason command.fee_rate command.slippage_rate

    -- The evaluation of an open position; the flag is `exited_this_candle`.
    abbrev pub react :
        Simulation
        → OpenPosition
        → Candle
        → StrategyContext
        → Option StrategyResult
        → Result (Simulation × Bool)
    react s position candle c none = ok (s, false)
    react s position candle c (some result) =
        let evaluated = record s { latest = some (result, c) } in
        if is_opposite_signal position.direction result.signal.direction
        then (do
          booked ←
              book_trade evaluated (close_at position candle candle.close_price "opposite_signal")
          ok (booked, true))
        else ok (evaluated, false)

    abbrev pub manage_exit :
        Simulation
        → OpenPosition
        → ℕ
        → Candle
        → Option (Decimal × String)
        → Result (Simulation × Bool)
    manage_exit s position index candle (some (price, reason)) = do
      booked ← book_trade s (close_at position candle price reason)
      ok (booked, true)
    manage_exit s position index candle none = do
      c ← context_at index
      result ← or_nothing (ports.evaluate c)
      react s position candle c result

    -- The first part of a round: an open position after the first candle.
    unfoldable pub manage_position :
        Simulation → ℕ → Candle → Option OpenPosition → Result (Simulation × Bool)
    manage_position s index candle none = ok (s, false)
    manage_position s index candle (some position) =
        if ltb 0 index
        then manage_exit s position index candle (exit_for_candle position candle)
        else ok (s, false)

    -- `position_sizing_strategy or FixedPositionSizingStrategy(...)`, at the equity of the moment.
    unfoldable pub sized_notional : Simulation → StrategyResult → Result Decimal
    sized_notional s result = do
      decision ← make_decision (entry_action result.signal.direction) result.signal
      limit ← backtest_exposure_limit s.equity
      sizing ← elim ports.decide_size [
        | some decide ↦ decide decision limit
        | none ↦
            decide_fixed (record { equity_ratio = command.risk_ratio; leverage = command.leverage })
              decision limit
      ]
      ok (times (times s.equity sizing.equity_ratio) sizing.leverage)

    -- Nothing if the levels of the given strategy cannot be calculated.
    unfoldable pub levels_for :
        StrategyResult → StrategyContext → Result (Option (Option TakeProfitStopLossLevels))
    levels_for result c = elim ports.calculate_levels [
      | some calculate ↦ do
        levels ← or_skip (calculate c result.signal.direction)
        ok (elim levels [ none ↦ none | some l ↦ some (some l) ])
      | none ↦ do levels ← levels_from_signal_metadata ports result c; ok (some levels)
    ]

    abbrev pub open_with :
        Simulation
        → Candle
        → StrategyResult
        → Decimal
        → Decimal
        → Option (Option TakeProfitStopLossLevels)
        → Simulation
    open_with s candle result entry_price quantity none = s
    open_with s candle result entry_price quantity (some levels) = record s {
      position = some (record {
        direction = result.signal.direction;
        entry_price = entry_price;
        quantity = quantity;
        entry_time = candle.closed_at;
        levels = levels;
      });
    }

    -- The end of a round on an entry signal.
    unfoldable pub open_trade :
        Simulation → Candle → StrategyContext → StrategyResult → Result Simulation
    open_trade s candle c result = do
      let entry_price =
          entry_price_of result.signal.direction candle.close_price command.slippage_rate
      notional ← sized_notional s result
      quantity ← divide notional entry_price
      levels ← levels_for result c
      ok (open_with s candle result entry_price quantity levels)

    abbrev pub enter_on :
        Simulation → Candle → StrategyContext → Option StrategyResult → Result Simulation
    enter_on s candle c none = ok s
    enter_on s candle c (some result) =
        let evaluated = record s { latest = some (result, c) } in
        if is_wait result.signal.direction
        then ok evaluated
        else open_trade evaluated candle c result

    -- The second part of a round, without a position.
    unfoldable pub try_enter : Simulation → ℕ → Candle → Result Simulation
    try_enter s index candle = do
      c ← context_at index
      result ← or_nothing (ports.evaluate c)
      enter_on s candle c result

    -- One round of the loop.
    unfoldable pub step : Simulation → ℕ → Candle → Result Simulation
    step s index candle = do
      (managed, exited) ← manage_position s index candle s.position
      if is_some managed.position || exited then ok managed else try_enter managed index candle

    unfoldable pub run : Simulation → ℕ → List Candle → Result Simulation
    run s index [] = ok s
    run s index (candle ∷ cs) = do s' ← step s index candle; run s' (suc index) cs

    -- `len(market.candles) - 1`
    unfoldable pub last_index : List Candle → ℕ
    last_index [] = 0
    last_index (c ∷ cs) = suc (last_index cs)

    unfoldable pub latest_of :
        Option (StrategyResult × StrategyContext) → Result (StrategyResult × StrategyContext)
    latest_of (some latest) = ok latest
    latest_of none = do
      c ← context_at (last_index market.others)
      result ← ports.evaluate c
      ok (result, c)

    -- The position that is left is closed on the last candle.
    unfoldable pub close_rest : Simulation → Option OpenPosition → Result Simulation
    close_rest s none = ok s
    close_rest s (some position) =
        let final_candle = latest_candle market in
        book_trade s (close_at position final_candle final_candle.close_price "end_of_data")

    abbrev pub start : Simulation
    start = record {
      equity = command.initial_equity;
      peak_equity = command.initial_equity;
      max_drawdown_ratio = pos 0;
      trades = [];
      position = none;
      latest = none;
    }

    -- What follows the loop.
    unfoldable pub finish : Simulation → Result BacktestSimulation
    finish s = do
      (result, c) ← latest_of s.latest
      closed ← close_rest s s.position
      performance ←
          performance_of command.initial_equity closed.equity closed.trades
            closed.max_drawdown_ratio
      ok (record {
        strategy_result = result;
        run_context = c;
        trades = closed.trades;
        performance = performance;
      })

    unfoldable pub simulate_backtest : Result BacktestSimulation
    simulate_backtest = do s ← run start 0 (candles market); finish s
