-- ===== src/Lib.antt =====
-- Krakked is a trading service for the Kraken exchange. Strategies emit intents, the risk engine turns
-- them into an execution plan, the order service checks and submits the plan's orders through an
-- adapter, and the portfolio follows what the exchange reports. The parts that are modelled are the
-- portfolio's books and the way from a decision to an order: the weights of the strategies, the risk
-- engine, the order service with its gates, the router that builds orders and payloads, the adapters,
-- the correlation of orders with the exchange, and the helpers below them. The portfolio's records give
-- the performance of the strategies, the performance their weights, the weights the caps of the risk
-- engine, and the portfolio's drift stops the risk engine and the order service.
--
-- Files, and the code that they model:
--   Connection/Nonce, Connection/RateLimiter: src/krakked/connection/nonce.py and rate_limiter.py; the
--     clock readings are arguments, and a call under the lock is one step.
--   Execution/Models, Strategy/Models: the data of src/krakked/execution/models.py and
--     src/krakked/strategy/models.py.
--   Execution/Config: `ExecutionConfig` of src/krakked/config_models.py, the live guards of
--     src/krakked/execution/adapter.py and oms.py, and src/krakked/safety.py.
--   Execution/Correlation: src/krakked/execution/order_correlation.py.
--   Execution/Userref: src/krakked/execution/userref.py.
--   Execution/Router: src/krakked/execution/router.py.
--   Execution/Adapter: the adapters of src/krakked/execution/adapter.py; Adapter/Cancel has their
--     cancellations and the choice of an adapter.
--   Execution/Oms: `ExecutionService` of src/krakked/execution/oms.py. State has its fields and the
--     record `Calls` of what it calls; Book the in-memory book; Sync the reconciliation with the
--     exchange; Gates the checks before an order; Exposure the projected notional; Order the life of
--     one order in `execute_plan`; Plan the whole of `execute_plan`; Cancel the cancellations; DeadMan
--     the heartbeats of the dead-man switch.
--   Strategy/Risk: `RiskEngine` of src/krakked/strategy/risk.py. Model has its data and the record `Desk`
--     of what it calls; Pairs the pair keys of src/krakked/strategy/pair_keys.py and the references of an
--     action; Context `build_risk_context`; Limits `_apply_limits`; Throttle the market-regime throttle;
--     Volatility the sizing by volatility; Targets and Pair the stages of `_process_pair_intents`; Kill
--     `_block_all_opens`; Engine `process_intents`, with Engine/Executed for a plan of its actions in the
--     order service.
--   Strategy/Performance: src/krakked/strategy/performance.py.
--   Strategy/Allocator: src/krakked/strategy/allocator.py, with Allocator/Caps for the weights as caps of
--     the risk engine.
--   Portfolio/Ledger: `Portfolio` of src/krakked/portfolio/portfolio.py. Model has its data and the record
--     `Books` of what it calls; Values the rounding, the conversion to the base currency and the tags;
--     Trades `_process_trade`, with Trades/Ingest for the trades and cash flows; Reconcile `reconcile`;
--     Equity the equity, the snapshots and the sums.
--   Portfolio/Balances: src/krakked/portfolio/balance_engine.py.
--   Portfolio/Manager: the live sync of `PortfolioService` in src/krakked/portfolio/manager.py, over the ledger
--     and the balance engine. Model has its state and the record `Links` of what it calls; Rules the rules
--     for its methods; Trades the pages of trades; Ledgers the ledgers and the references that lag; Views
--     the cached views; Sync the start from the store, the reconciliation and the sync as a whole, with
--     Sync/Allowed for the live status that the gates read after it.
--   Portfolio/SyncStatus: src/krakked/portfolio/sync_status.py.
--   Examples: a small concrete service, tests, and the theorems at concrete inputs.
--
-- A method of the order service is a function from its state to a result and the next state
-- (`M` of Execution/Oms/State). What lies outside (exchange, store, market data, adapter) is a value of
-- an arbitrary type that each call may change; what the service writes is appended to a trace, newest
-- first. So every theorem on `execute_plan` holds for all answers of the outside. Python orders are
-- shared objects: a change of an order shows in the book where an order with its id stands there
-- (`write_through`). A `ValueError` of a user reference leaves `execute_plan`: its result is then `none`,
-- with the state that it leaves (`>>?` of Execution/Oms/State).
--
-- Floats are a type with the operations that the code uses (`Float`), whose order is assumed to be a
-- total one only where a theorem says so (`IsOrdered`): NaN is excluded. Where amounts are scaled a
-- theorem assumes what rounding keeps of the arithmetic of finite floats (`IsScaling`, `IsGrowing`,
-- `IsNegating`, `IsRounding`, `IsDifference`), and where sizes are rounded that an amount at or below zero
-- stays there (`RoundsDown`); `sum` is read as a left fold. Decimals are a second such type. In the order service the numbers printed into
-- messages are left out; in the risk engine the printing is an argument (`Format`). Log records and time
-- stamps of orders are left out. The loops are structural recursion on the lists that the code iterates
-- over, or on the retries that are left; only the loop over the pages of trades takes fuel, of 201
-- rounds, and is proved to end within it. A method of the portfolio's service may raise: its result is
-- then `none`, with the state that it leaves.
--
-- Not modelled: the paper mode and the queries of the portfolio's manager; the store and the
-- configuration loader, which are input and output; market data and the REST client, whose answers are arguments; the strategies and the
-- machine-learning models, which are numerical; the main loop, the user interface and the backtests.
pub mod Prelude
pub mod Connection
pub mod Strategy
pub mod Execution
pub mod Portfolio
pub mod Examples
