-- ===== src/Lib.antt =====
-- gptrader: an automated trading service. This library models its decision core: the domain types
-- with the checks of their constructors, the use cases that trade, the selector that picks a strategy
-- by market regime with the store of its decisions, the backtest simulator, the lifecycle of strategies
-- and the schedulers; and it proves what they promise.
--
-- Parts, and how they interact. A trade starts from a market snapshot (Market). A strategy context
-- (Strategy) goes to a signal generator, whose signal (Signal) becomes a trade decision; sizing and
-- the risk policy (Risk) turn it into an order (Execution), and reports of the exchange become events
-- of a position (Position). The use cases in Trade tie these together. Regime holds the windows of
-- time that regimes use and one step of the selector, whose state is stored between steps. Backtest
-- runs a strategy over the candles of a snapshot.
--
-- Files and sources:
--   Prelude, Prelude/*: exceptions as results, whole numbers with a sign, texts, tests.
--   Decimal, Decimal/*: decimal.Decimal. A value is a whole number of units, the unit being the
--     smallest positive value of the context; an arithmetic result is the exact one rounded by the
--     context, which is an argument with four laws. Decimal/Plain is one that meets them.
--   Market (src/domain/market), Signal (src/domain/signal), Position (src/domain/position),
--   Execution (src/domain/execution), Risk (src/domain/risk), Strategy (src/domain/strategy,
--     src/domain/indicator, src/domain/market_feature): one record per dataclass. A dataclass with a
--     __post_init__ has a check_ or make_ function that returns the value or the exception; methods
--     keep their names.
--   Strategy/Rolling, Strategy/RangeEdge, Strategy/Compression, Strategy/MovingAverage, Strategy/Atr
--     (src/domain/strategy/implementations, with the checks of src/domain/indicator): deques are lists
--     with their right end first, and a strategy that keeps windows gives itself back beside what it
--     returns.
--   Strategy/Features, Strategy/Features/Provider, Strategy/Features/Loading
--     (src/domain/market_feature and src/infrastructure/market_feature): the rows of a market are kept
--     in order of time.
--   Trade/Journal: the calls that change the outside world, latest first, and actions that make them.
--   Trade/Dto (src/application/usecases/trade/dto.py), Trade/Execute (execute_trade_usecase.py, with
--     the protective orders of
--     src/infrastructure/exchange/binance/order_execution/binance_order_execution_adapter.py),
--     Trade/Close (close_position_usecase.py), Trade/Sync (sync_position_usecase.py), Trade/Manage
--     (manage_open_position_usecase.py). A long method is a chain of definitions, split where it
--     returns early.
--   Regime/Temporal (src/domain/regime/temporal.py), Regime/Artifacts and Regime/Selection
--     (src/domain/regime/selection.py), Regime/Observations, Regime/Parts and Regime/Select
--     (src/application/usecases/regime/select_strategy_usecase.py). A float stands as the decimal that
--     str prints for it.
--   Backtest, Backtest/Pricing (src/application/usecases/research/dto.py and the helpers of
--     backtest_simulator.py), Backtest/Simulator (simulate_backtest): the local
--     variables of the loop are a record, and a round of the loop is a function on it.
--   Regime/Json, Regime/Audit, Regime/Payloads, Regime/Rows, Regime/Store
--     (src/infrastructure/persistence/repositories/sqlite_regime_selection_state_repository.py and the
--     audit records of src/domain/regime/selection.py): the database is a value, and a transaction
--     gives its answer and the database after it, which is the one before when it raises. A JSON
--     object has its fields in the order of its text, which for what is written is that of sort_keys.
--   Regime/Scheduler (src/interfaces/scheduler/regime_selection_scheduler.py): a scheduled selection on
--     that database.
--   Research (src/application/usecases/research), Research/Cycle, Research/Runs, Research/Measures and
--     Research/Indicators (run_strategy_backtest_cycle_usecase.py in
--     src/application/usecases/strategy_lifecycle): what is saved is the list of saves beside the
--     answer.
--   Scheduler (trade_scheduler.py and strategy_lifecycle_scheduler.py in src/interfaces/scheduler).
--   Composite/Routing (src/domain/signal_generator/regime_signal_generator.py).
--   Composite (src/domain/signal_generator/composite_signal_generator.py): a strategy is the function
--     that its evaluate is.
--   Lifecycle, Lifecycle/Definitions, Lifecycle/Registration, Lifecycle/Cycle (src/domain/lifecycle,
--     and the use cases of src/application/usecases/strategy_lifecycle that register, promote and run
--     strategies): promotion gives what it returns or raises and the list of the evaluations it has
--     saved.
--   Tests/*: sample data, and each theorem that has conditions applied to a case.
--
-- What is outside the repository, or is network and database code, is an argument: the ports of the
-- use cases, str.upper and str.lower, the decimal digits beyond ASCII, json.dumps and json.loads, the
-- texts of datetime, the digests of hashlib, math.fsum, and Decimal(str(x)) for values of other
-- classes. A port may raise whatever it likes at every call.
--
-- Loops are recursions on lists, but for three. The weekly episodes count down the weeks of the range:
-- as many rounds as the loop makes, since each round moves the anchor one week. The rolling average
-- counts down the values that are too many, and each round drops one of them. The digits of a number
-- are written with the number after it as fuel, which is more than it has digits.
--
-- Not modelled: logging; the checks of argument classes, which types make needless; fitting of regime
-- models and mappings and chart features, which is numeric code on floats; the daily selection;
-- failures of sqlite3 itself; chart patterns, the regime router, volume profiles and the
-- microstructure strategies; other adapters, interfaces and scripts.
pub mod Prelude
pub mod Decimal
pub mod Market
pub mod Signal
pub mod Position
pub mod Execution
pub mod Risk
pub mod Strategy
pub mod Trade
pub mod Regime
pub mod Backtest
pub mod Composite
pub mod Lifecycle
pub mod Research
pub mod Scheduler
pub mod Tests
