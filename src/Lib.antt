-- ===== src/Lib.antt =====
-- A verification of the trading core of ChainerTrader, the code under src/trader/.
-- A strategy reads bars, routes its signals and moves its trades through their life cycle; it hands
-- intents (orders and protections) to the execution orchestrator, which reserves an intent's
-- idempotency key in a table, calls a gateway (a backtest broker, a notifier or the exchange) and
-- saves the result. The capital of live tasks is kept by reservations of an account's funds.
--
-- Prelude: what the other modules share. Prelude/Raise has the result of a call that may raise,
-- Prelude/Exec coroutines that change a state and may raise, Prelude/Text Python's texts,
-- Prelude/Int its integers, and Prelude/Float its floats as an interface. Nothing is assumed of
-- the rounding of floats; a theorem that needs laws of the comparisons takes `OrderLaws`, which hold
-- of NaN too, and the integers are a value of the interface at which they hold.
-- Execution: the contracts of src/trader/execution/. Execution/Kinds and Execution/Enums are the
-- enumerations, Execution/Order, Execution/Risk and Execution/Outcome the classes of models.py (a
-- constructor with its `__post_init__` is `make_order` and `make_risk`), Execution/State is state.py,
-- Execution/Resolver is resolver.py, and Execution/Semantics and Execution/Selection are
-- order_semantics.py. A dictionary of any values is `Fields` of Execution/Payload.
-- Database: src/trader/database/. Database/Rows has the operations of a table with a unique key, of
-- Tortoise ORM, as parameters with their documented behaviour. Database/ExecutionStates is
-- execution_state.py over them, and Database/Funds is account_fund_reservation.py over the list of
-- the rows, each method one step. Database/Availability is availability.py, over
-- queries of its table that may raise.
-- Kernel: src/trader/strategy/execution_kernel.py. Kernel/Orchestrator is `ExecutionOrchestrator`,
-- whose state is the table, the calls that reached the gateway and the readings of the clock; the
-- gateway and the clock are functions that a theorem quantifies over. Kernel/Transition has the two
-- engines of that file.
-- Strategy: src/trader/strategy/. Strategy/Context and Strategy/Engine are the trade contexts and
-- their engine of lifecycle.py, Strategy/Registry is its registry, over references, because its
-- dictionaries share the contexts, Strategy/Router is signal_router.py, and Strategy/StopRisk is
-- risk.py with the prices of src/trader/libraries/chainer_trader.py, and Strategy/Adapter is
-- backtrader_adapter.py, over the calls of a broker. Strategy/Exit is
-- `exit_trade` of src/trader/strategy/base_strategy.py over all of these. Strategy/Engine/Steps has the
-- steps in which src/trader/strategy/base_strategy.py calls the engine.
-- Gateway: src/trader/execution/gateways.py. Gateway/Payloads reads an exchange's answers,
-- Gateway/Events builds the events and results, Gateway/Live and Gateway/Protection are the live
-- gateway's orders and protections over Gateway/Exchange, whose methods are parameters, and
-- Gateway/Backtrader is the backtest gateway over the calls of a broker.
-- Common: src/trader/common/ and src/trader/utils/. Common/Interval is symbol_interval.py,
-- Common/Duration and Common/TimeRange are time_range.py, over dates of the calendar, and
-- Common/LogBuffer is log_buffer.py.
-- Task: src/trader/task/. Task/Dataset is dataset_resolver.py: the ranges that are missing of a
-- dataset (Task/Dataset), what it works with (Task/Dataset/Env), its coverage (Task/Dataset/Cover)
-- and `prepare` (Task/Dataset/Prepare). Task/UpdateKlines is update_klines_task.py.
-- Live: Live/MarketData is src/trader/live/market_data.py.
-- Analysis: Analysis/Drawdown is `MaxDrawdownAnalyzer` of src/trader/utils/operation_state.py.
-- Tests: each theorem at a concrete input.
--
-- Loops are structural recursion on lists and numbers, but for the two download loops of
-- Task/UpdateKlines, which run on fuel: a turn either makes at least a second's progress or is one of
-- at most five retries, so that six turns for each second of the range are enough.
--
-- Not modelled: the strategies' bar-by-bar processing, their entries and the indicators, which work on
-- backtrader's line objects; the network clients, the RPC server, the live tasks, the optimizer
-- and the tools; log messages, pauses and notifications; the files that a dataset is kept in, and the
-- messages of a feed. Texts are changed in case on ASCII letters only. The lengths of a table's columns
-- are not checked. Times of klines are seconds since the epoch, so they are not negative.
-- A coroutine runs to its end before the next one starts, but in
-- Database/ExecutionStates/Race, where two interleave at every `await`.
pub mod Prelude
pub mod Common
pub mod Execution
pub mod Database
pub mod Kernel
pub mod Strategy
pub mod Gateway
pub mod Analysis
pub mod Task
pub mod Live
pub mod Tests
