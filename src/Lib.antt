-- ===== src/Lib.antt =====
-- A verification of the trading path of polytrader: from market data, through a signal's proposal and
-- the risk check, to an order, its execution and the venue's answers to it.
--
-- The program's parts and how they interact. The portfolio service makes an `OrderIntentEvent` of a
-- strategy's signal. The risk checker (polytrader/risk/engine.py) builds a context from what it has
-- seen, runs nine policies (polytrader/risk/policies.py) and publishes the intent again when all of
-- them allow it. The OMS core (polytrader/oms/core.py) makes an order of an approved intent, once
-- for each client's order id (polytrader/oms/idempotency.py), hands it to the venue, and turns the
-- venue's answers into events. The order store (polytrader/oms/store.py) is the projection of those
-- events; each change of an order's state goes through the state machine (polytrader/oms/fsm.py).
-- The components talk over the event bus (polytrader/events/bus.py). Market data is kept by
-- polytrader/store.py; the strategies (polytrader/strategies) read indicators
-- (polytrader/indicators) off it; the portfolio service (polytrader/portfolio) turns a signal into
-- a target and a proposal; the router (polytrader/execution) takes the commands of the OMS to a
-- venue, here the simulated one. The position managers (polytrader/position_manager) follow the fills
-- and propose sales; the circuit breaker and the health gates (polytrader/ops) switch execution; the
-- life cycle of strategies (polytrader/strategies, polytrader/platform) is a state machine, and
-- strategies of one market pattern share a supervisor.
--
-- Files:
--   Prelude, Prelude/*   shared names, Boolean tests, lists, equality tests and sets
--   Float, Float/Fixed   Python's `float` as an interface, and one concrete instance
--   Dict                 Python's `dict` in insertion order
--   Effect               a call with a state that returns or raises; what was written before a
--                        raise stays written
--   Events               the events of polytrader/events/types.py and polytrader/types.py
--   Oms/Models, Oms/Fsm  orders and states (oms/models.py, oms/fsm.py); Fsm/Paths has the relation,
--                        Fsm/Graph its theorems
--   Oms/Idempotency      oms/idempotency.py; Idempotency/Fields and Idempotency/Laws the theorems
--   Oms/Store            the state and `update_order`; Store/Handlers the event handlers and the
--                        replay; Changes, Handled, Rejection and Survival what a handler may change;
--                        Invariant and Evolution the theorems
--   Oms/Core             `OMSCore`: Core/Handlers has `create_order` (here `create_order_for`),
--                        `handle_venue_ack`, `handle_venue_reject`, `handle_fill` (here
--                        `handle_venue_fill`) and `handle_cancel`; Core/Canonical the messages of
--                        the user stream; Core/Loop the loops of `run` that serve them;
--                        Core/Creation, Core/Cancel, Core/Fill and Core/Loop/Invariant
--                        theorems
--   Risk/Models, Risk/Policies, Risk/Engine, Risk/Checker
--                        risk/models.py, risk/policies.py, `RiskEngine` and `RiskChecker` of
--                        risk/engine.py
--   Market/Pattern       `slug_to_pattern` of store.py, as `re` matches it
--   Market/Store         `MemoryMarketDataStore` and `PatternKeyedMarketDataStore`, which differ in the
--                        key of a slug, and `DualViewMarketDataStore`; Market/Refinement the theorems;
--                        Market/Composite `CompositeMarketDataStore`
--   Bus/EventBus         `EventBus` of events/bus.py with the queues of its subscribers; Bus/Queues
--                        lemmas, Bus/Delivery the theorems; Bus/EventStore `MemoryEventStore`
--                        of events/store.py, with EventStore/Read
--   Execution/Pricing    execution/pricing.py and execution/fill_models.py
--   Execution/Throttle   execution/throttle.py; Throttle/Window its theorem
--   Execution/Paper      execution/adapter.py and execution/paper.py
--   Execution/Router     execution/tactics.py and `_handle_submit_command` of execution/router.py;
--                        Router/Messages, Router/Answers and Router/Contradiction its theorems;
--                        Router/Cancel `_handle_cancel_command`
--   Portfolio            portfolio/*.py; Portfolio/Proposals the theorems
--   Indicators/Candles   indicators/candles/*.py; Indicators/Sorting lemmas, Indicators/Bounds the
--                        theorem
--   Indicators/Rolling   indicators/rolling.py, atr.py, typical_price.py and primitives.py;
--                        Indicators/Lengths the theorem
--   Strategies/Threshold strategies/simple_threshold/strategy.py; Threshold/Once its theorem
--   Strategies/Reversion strategies/volatility_filtered_mean_reversion/strategy.py;
--                        Reversion/Sound its theorem
--   PositionManager/Outcomes
--                        position_manager/outcome_tracker.py and performance_metrics.py
--   PositionManager/PerStrategy
--                        platform/performance.py
--   PositionManager/Paper
--                        position_manager/paper.py: the fills; Paper/Market the quotes and the end of
--                        a market, Paper/Loop its three loops; Keys, Consistent, Pending, Once, Resale
--                        and Settlement the theorems
--   PositionManager/Live `PositionManager` of position_manager/__init__.py; Live/Target,
--                        Live/Grouping and Live/Reconcile the theorems
--   Ops/Control          ops/control.py; Control/Latch the theorems
--   Ops/Health           ops/health.py; Health/Failures and Health/Gates the theorem
--   Strategies/Lifecycle strategies/lifecycle.py and lifecycle_models.py; Lifecycle/Manager
--                        platform/strategy_lifecycle.py, Lifecycle/Edges the relation,
--                        Lifecycle/Audit the theorems
--   Strategies/Registry  strategies/registry.py and version.py; Registry/Resolution the theorem
--   Platform/Supervisors platform/supervisor_registry.py; Supervisors/Steps lemmas, Counting and
--                        Overlap the theorems
--   Oms/Tests, Risk/Tests, Market/Tests, Bus/Tests, Execution/Tests, Portfolio/Tests,
--   Indicators/Tests, Strategies/Tests, PositionManager/Tests, Ops/Control/Tests,
--   Ops/Health/Tests, Strategies/Lifecycle/Tests, Strategies/Registry/Tests,
--   Platform/Supervisors/Tests
--                        the theorems at concrete values
--
-- How state corresponds. Each Python object is a record of its fields. A handler is a function from
-- the record to a result and a new record. A publication on the bus appends to the list
-- `published`; a handler is one step, so that it is not interleaved with another one at an
-- `await`, but for `get_or_create` of Platform/Supervisors, which is two steps. Clock readings and
-- new ids are parameters, one for each reading. Floats are an interface without laws of rounding. A
-- set is a list of its members. Loops are structural recursion on lists, so no fuel is needed.
--
-- Parameters: `Float` (arithmetic), `Printing` (SHA-256 and the printing of numbers, in
-- oms/idempotency.py), `Texts` (the f-strings of the portfolio and of the health gates), the clock,
-- `uuid4`, `random`, the test of a Unicode digit that `re` uses, the text of pydantic's errors,
-- `Timing` (what is asked of `datetime`), `sum` of floats, the major number of a version, what the
-- session of the database answers, what a flush that fails does to it, and what its check
-- reports, and the market data store of the risk
-- context and of the health gates.
--
-- Not modelled: logs and metrics; the gauge task and the loops that read the queues, apart from that
-- of the user stream; the database, the HTTP API, the venue's network clients, the starting and
-- stopping of processes, and configuration, which hold no order logic; the parsing of the venue's
-- list of orders, and of the strategies their factories and schemas.
pub mod Prelude
pub mod Float
pub mod Dict
pub mod Effect
pub mod Events
pub mod Oms
pub mod Risk
pub mod Market
pub mod Bus
pub mod Execution
pub mod Portfolio
pub mod Indicators
pub mod Strategies
pub mod PositionManager
pub mod Ops
pub mod Platform
