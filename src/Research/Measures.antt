-- ===== src/Research/Measures.antt =====
-- What a backtest cycle measures: `_metrics_from_result`, `_metrics_from_backtest` and
-- `_average_trade_return`
-- (application/usecases/strategy_lifecycle/run_strategy_backtest_cycle_usecase.py).
use gptrader_mw_v.Prelude.{
  ℕ, suc, String, List, [], ◌∷◌, ◌++◌, Result, ok, ◌>>=◌, pos, leb_ℤ, if◌then◌else◌,
}
use gptrader_mw_v.Decimal.{Decimal, Context, literal, plus, times, divide}
use gptrader_mw_v.Signal.{SignalDirection, SignalReason, long, short, wait, is_wait}
use gptrader_mw_v.Strategy.{StrategyResult}
use gptrader_mw_v.Backtest.{BacktestTrade}
use gptrader_mw_v.Lifecycle.{Metrics}
use gptrader_mw_v.Research.{BacktestStrategyResult}

abbrev pub direction_value : SignalDirection → String
direction_value long = "long"
direction_value short = "short"
direction_value wait = "wait"

unfoldable pub reason_count : List SignalReason → ℕ
reason_count [] = 0
reason_count (r ∷ rs) = suc (reason_count rs)

unfoldable pub return_count : List Decimal → ℕ
return_count [] = 0
return_count (r ∷ rs) = suc (return_count rs)

module _ ⦃context : Context⦄ where
  -- `_metrics_from_result`
  unfoldable pub metrics_from_result : StrategyResult → Metrics
  unfolding reason_count
  metrics_from_result result =
      ("signal_confidence", result.signal.confidence)
      ∷ ("direction_score", (if is_wait result.signal.direction then literal 0 1 else literal 1 1))
      ∷ ("reason_count", literal (reason_count result.signal.reasons) 1)
      ∷ []

  -- The loop of `_average_trade_return`.
  unfoldable pub trade_returns : List BacktestTrade → Result (List Decimal)
  trade_returns [] = ok []
  trade_returns (trade ∷ trades) =
      let notional = times trade.entry_price trade.quantity in
      let rest = trade_returns trades in
      if leb_ℤ notional (pos 0)
      then rest
      else (do r ← divide trade.net_pnl notional; rs ← rest; ok (r ∷ rs))

  unfoldable pub add_all : Decimal → List Decimal → Decimal
  add_all total [] = total
  add_all total (x ∷ xs) = add_all (plus total x) xs

  abbrev pub mean_of : List Decimal → Result Decimal
  mean_of [] = ok (pos 0)
  mean_of (x ∷ xs) = divide (add_all (pos 0) (x ∷ xs)) (literal (return_count (x ∷ xs)) 1)

  -- `_average_trade_return`, which is zero without trades.
  unfoldable pub average_trade_return : List BacktestTrade → Result Decimal
  unfolding trade_returns return_count
  average_trade_return trades = do returns ← trade_returns trades; mean_of returns

  -- `_metrics_from_backtest` of a result with a performance.
  unfoldable pub metrics_from_backtest : BacktestStrategyResult → Result Metrics
  unfolding metrics_from_result average_trade_return
  metrics_from_backtest result = do
    average ← average_trade_return result.trades
    let performance = result.performance
    ok (
        metrics_from_result result.strategy_result
        ++ (("initial_equity", performance.initial_equity)
            ∷ ("final_equity", performance.final_equity)
            ∷ ("net_pnl", performance.net_pnl)
            ∷ ("return_ratio", performance.return_ratio)
            ∷ ("max_drawdown_ratio", performance.max_drawdown_ratio)
            ∷ ("trade_count", literal performance.trade_count 1)
            ∷ ("winning_trade_count", literal performance.winning_trade_count 1)
            ∷ ("losing_trade_count", literal performance.losing_trade_count 1)
            ∷ ("win_rate", performance.win_rate)
            ∷ ("average_trade_return", average)
            ∷ []))
