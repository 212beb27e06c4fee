-- ===== src/Backtest/Pricing.antt =====
-- The prices, the trades and the performance of a backtest (backtest_simulator.py).
use gptrader_mw_v.Prelude.{
  ℕ, suc, zero, true, String, List, Result, ok, ◌>>=◌, pos, leb_ℤ, if◌then◌else◌,
}
use gptrader_mw_v.Decimal.{Decimal, Context, literal, plus, minus, times, divide}
use gptrader_mw_v.Market.{Candle}
use gptrader_mw_v.Signal.{SignalDirection, long}
use gptrader_mw_v.Risk.{ExposureLimit, check_exposure_limit}
use gptrader_mw_v.Backtest.{
  OpenPosition, BacktestTrade, BacktestPerformance, count_trades, is_winning, is_losing,
}

module _ ⦃context : Context⦄ where
  -- `_entry_price`
  unfoldable pub entry_price_of : SignalDirection → Decimal → Decimal → Decimal
  entry_price_of long price slippage_rate = times price (plus (literal 1 1) slippage_rate)
  entry_price_of _ price slippage_rate = times price (minus (literal 1 1) slippage_rate)

  -- `_exit_with_slippage`
  unfoldable pub exit_with_slippage : SignalDirection → Decimal → Decimal → Decimal
  exit_with_slippage long price slippage_rate = times price (minus (literal 1 1) slippage_rate)
  exit_with_slippage _ price slippage_rate = times price (plus (literal 1 1) slippage_rate)

  abbrev pub gross_pnl_of : SignalDirection → Decimal → Decimal → Decimal → Decimal
  gross_pnl_of long entry exit quantity = times (minus exit entry) quantity
  gross_pnl_of _ entry exit quantity = times (minus entry exit) quantity

  -- `_close_trade`; every call gives a reason.
  unfoldable pub close_trade :
      OpenPosition → Candle → Decimal → String → Decimal → Decimal → BacktestTrade
  unfolding exit_with_slippage
  close_trade position candle exit_price exit_reason fee_rate slippage_rate =
      let filled = exit_with_slippage position.direction exit_price slippage_rate in
      let gross = gross_pnl_of position.direction position.entry_price filled position.quantity in
      let fee =
        times (plus (times position.entry_price position.quantity) (times filled position.quantity))
          fee_rate in
      record {
        direction = position.direction;
        entry_price = position.entry_price;
        exit_price = filled;
        quantity = position.quantity;
        gross_pnl = gross;
        fee_paid = fee;
        net_pnl = minus gross fee;
        entry_time = position.entry_time;
        exit_time = candle.closed_at;
        exit_reason = exit_reason;
      }

  -- `_drawdown_ratio`
  unfoldable pub drawdown_ratio : Decimal → Decimal → Result Decimal
  drawdown_ratio equity peak_equity =
      if leb_ℤ peak_equity (pos 0)
      then ok (pos 0)
      else divide (minus peak_equity equity) peak_equity

  -- `_backtest_exposure_limit`
  unfoldable pub backtest_exposure_limit : Decimal → Result ExposureLimit
  backtest_exposure_limit equity = check_exposure_limit (record {
    equity = equity;
    current_total_exposure = pos 0;
    current_symbol_exposure = pos 0;
    max_total_exposure_ratio = literal 1000000 1;
    max_symbol_exposure_ratio = literal 1000000 1;
  })

  abbrev pub win_rate_of : ℕ → ℕ → Result Decimal
  win_rate_of wins zero = ok (pos 0)
  win_rate_of wins (suc n) = divide (literal wins 1) (literal (suc n) 1)

  -- `_performance`
  unfoldable pub performance_of :
      Decimal → Decimal → List BacktestTrade → Decimal → Result BacktestPerformance
  unfolding count_trades
  performance_of initial_equity final_equity trades max_drawdown_ratio = do
    let net_pnl = minus final_equity initial_equity
    let trade_count = count_trades (λ _. true) trades
    let wins = count_trades is_winning trades
    win_rate ← win_rate_of wins trade_count
    return_ratio ← divide net_pnl initial_equity
    ok (record {
      initial_equity = initial_equity;
      final_equity = final_equity;
      net_pnl = net_pnl;
      return_ratio = return_ratio;
      max_drawdown_ratio = max_drawdown_ratio;
      trade_count = trade_count;
      winning_trade_count = wins;
      losing_trade_count = count_trades is_losing trades;
      win_rate = win_rate;
    })
