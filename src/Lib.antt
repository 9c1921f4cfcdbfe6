-- ===== src/Lib.antt =====
-- The trading core of the equity research workstation, from the sources under src/trading.
--
-- The program collects market data, scores candidates, decides on trades, sends paper orders and keeps the
-- books. These parts of it are modelled, each in the module named:
--
-- - Risk: the final gate in front of every order (src/trading/risk). Risk.Context and Risk.Decision have its
--   records (context.py, lookahead.py, manager.py), Risk.Config the limits by risk appetite (config.py),
--   Risk.Sizing the position sizer (sizing.py), Risk.Exposure the factor exposures and Risk.Signals,
--   Risk.Intent and Risk.Gate `RiskManager.evaluate` (manager.py). Risk.Drafts and Risk.Planner are the hedge
--   planner, `plan` with its own-event and cluster rules and its overlays (planner.py), and Risk.Assignment is
--   the assignment risk of an option strategy (options.py). The gate reads what the planner proposed, and both
--   meet in Risk.Planner.Blocked.
-- - Events: the assessments of calendar events (src/trading/events/risk.py), which the planner is given.
-- - Strategies: the fields of candidates and classifications that the risk layer reads, and the weight cap of
--   an experimental strategy (src/trading/strategies/matching.py, classifier.py, policy.py).
-- - Selection: which candidate of a ticker and action becomes a trade, and in which expression with which
--   fallbacks (src/trading/strategies/selector.py).
-- - Resilience: cache, circuit, budget and retries around a call of a data provider
--   (src/trading/data_sources/provider_resilience.py).
-- - StockBroker: the paper stock broker, `submit_order`, `refresh_order`, the polling and the local books
--   (src/trading/brokers/paper_stock.py). What it is asked to send comes from a decision of the gate.
-- - OptionBroker: the paper option broker, `submit_order` against the service and as a local simulation, the
--   order objects that it sends and the books (src/trading/brokers/paper_option.py). It has the service and the
--   reports of the stock broker; OptionBroker.Book states what it promises its callers.
-- - Execution: how a decision on a stock becomes an order (src/trading/execution/paper_execution.py,
--   attempts.py), with the reconciliation of late fills (src/trading/portfolio/sync.py) and the parts of the
--   in-memory repository that both write (src/trading/repositories/in_memory.py). It reads the decisions of the
--   gate and the manual requests, and calls the stock broker. Execution.Fallback is the choice of the next
--   expression for a decision that was not executed.
-- - Policy: in which order a decision tries its expressions, which option strategy with which terms it uses for
--   one, and the earnings policy (src/trading/decision/option_strategy_builder/policy.py). Policy.Ordered
--   follows a plan through the execution.
-- - ManualReview: the in-memory requests that pin a ticker (src/trading/phases/manual_review/requests.py).
-- - Pnl: the replay of stock fills into cost basis and realized profit, the comparison with the broker's
--   positions and the enriched snapshot (src/trading/portfolio/pnl.py). Its fills are the broker's executions.
-- - Intents: the holdings approved as core holdings (src/trading/portfolio/intents.py).
-- - Learning: what learned factors do to scores and to the risk budget (src/trading/learning/apply.py).
-- - Alerts: the intraday news alerts (src/trading/phases/intraday/news_alerts.py).
-- - Outcomes: the sessions at which an outcome is marked, and its end (src/trading/outcomes/horizons.py,
--   finalization.py). The exchange calendar is an argument.
-- - Prelude and Float: what the others share.
--
-- A class becomes a record of the attributes that its methods change, and a method a function that returns its
-- answer and the new record. Where a method raises, the answer says so and the record is the one left behind.
-- Names of functions and fields are the source's, less a leading underscore; a function that is long in the
-- source is cut where it branches or returns, and its parts are named for what they do.
--
-- A Python `float` is a value of the interface `Float`, so all definitions hold for any arithmetic; theorems
-- that compare floats take the laws of IEEE comparison as `FloatLaws`, which whole millionths meet. Times are
-- whole microseconds, and differences of times are exact. `uuid4`, clocks, `jitter`, the operation of a
-- provider call and the responses of the order service are arguments. Texts are compared by code points; case
-- mapping is that of the ASCII letters. Metadata dictionaries are records of the keys that the code writes.
--
-- Loops are structural recursion. The retry loop of Resilience has fuel for `max_retries + 1` attempts, and
-- Resilience.Attempts shows that it never runs out; the poll loops of StockBroker and OptionBroker count down
-- the attempts left.
--
-- Not modelled: web pages and routers, database models and repositories, schedulers, collectors, the
-- language-model agents and the provider clients, which are input, output and storage; and, of the trading
-- core, signals, ranking, the matching and scoring of strategies, the legs of options strategies, the
-- building of decisions, the execution of options, the rebuild of positions in a portfolio sync, outcome
-- evaluation, replay and the workflow runners. Integers from Python that count things are natural numbers:
-- settings are taken to be non-negative.
pub mod Prelude
pub mod Float
pub mod Strategies
pub mod Risk
pub mod Events
pub mod Resilience
pub mod StockBroker
pub mod ManualReview
pub mod Pnl
pub mod Learning
pub mod Alerts
pub mod Outcomes
pub mod Intents
pub mod OptionBroker
pub mod Execution
pub mod Selection
pub mod Policy
