-- ===== src/Lib.antt =====
-- Signalix, a trading engine: Python strategies send signals; a signal is turned into an order, the
-- risk rules allow, reduce or reject it, and the order management places it with an exchange, retries,
-- cancels, and follows the order's events. This library models the parts of it that decide.
--
-- The parts, and how a signal passes through them:
--
-- Models     internal/models (order.go, signal.go, errors.go, market.go, views.go) and the value types
--            of pkg/exchange/perp/types.go. Models.Validate is Signal.Validate.
-- Decision   internal/app/decision: processSignal (decision_engine.go) validates the signal, reads the
--            account's snapshot, computes a notional (sizing_mode.go) and from it a number of contracts
--            (sizing.go, here Decision.Notional), takes a side and builds the order
--            (Decision.Process). Each early return is a clause of a function with the name of what it
--            has so far: with_valid, with_account, with_size, with_side.
-- Risk       internal/domain/risk: Evaluate (evaluate.go, here Risk.Evaluate) is a chain of checks, of
--            which the first that objects gives the verdict; MergeRules and PrefixStrategyVerdict
--            (merge.go, here Risk.Merge); exposure.go and notional.go (Risk.Exposure).
-- Equity     internal/app/risk/equity_tracker.go: the daily loss and the drawdown that the rules read.
-- Oms        internal/app/oms: the engine of execution_engine.go and place_validate.go. Oms holds the
--            state, Oms.Submit, Oms.Commands and Oms.Queries the operations, Oms.Validate the tests on
--            an order before it is placed, and Oms.Run the loop of `run`.
-- Klines     the history of closed K-lines of one contract and interval:
--            internal/app/market/perp/kline_history.go, with internal/models/kline.go and history.go.
-- Projection internal/app/projection/account_projection.go: the balance and the positions in memory,
--            which a refresh replaces and the user's events change.
-- Exchange   the names of orders at the exchange: pkg/exchange/perp/client_order_id.go, an interface
--            (Exchange.Codec, with the law that its clients use in IsCodec), and Gate.io's
--            implementation in pkg/exchange/perp/gateio/client_id.go (Exchange.ClientId).
-- Perp       internal/app/market/perp: executor.go places orders and turns the exchange's user events
--            into order events (Perp.Executor); risk.go collects what the rules read of an order
--            (Perp.RiskContext); router.go keeps the subscriptions and sends market data on
--            (Perp.Router).
-- Engine     internal/app/engine: dispatchSignal of engine.go with strategy_risk.go, risk_evaluator.go
--            and market_dispatch.go (Engine.Dispatch, whose Stages are the steps, and whose interface
--            MarketPort the perpetual market fills in Engine.Dispatch.Killed); risk_input.go
--            (Engine.NotionalGate); kill_switch.go (Engine.KillSwitch); restart.go (Engine.Crashes);
--            launchStrategy, StopStrategy and handleProcessExit of engine.go, with
--            internal/app/strategy/interval.go (Engine.Processes).
-- Prelude    lists, options, results, integers, texts and association lists.
-- Numbers    github.com/shopspring/decimal and float64, which are not part of the repository: a record
--            of operations that every definition takes, with the documented laws of the order in
--            OrderLaws. Numbers.Whole is a concrete instance, on whole numbers, for the tests.
--
-- A signal takes this way: Engine.Dispatch asks the kill switch, the market's decision
-- (Decision.Process), the market's risk context (Perp.RiskContext, which reads Projection, Oms and
-- Equity), the strategy's rules and then the evaluator (Risk.Merge, Risk.Evaluate), and sends the order
-- on to Oms, whose executor is Perp.Executor; the exchange's events come back through it to Oms.
--
-- The order management runs on one goroutine, so its state is passed from handler to handler, and a run
-- is a sequence of messages in any order (Oms.Run.Reach). What happens outside while one message is
-- handled is an Env: the clock, the executor's answers attempt by attempt, the moments at which the
-- context is done, whether a send or a save succeeds. A pointer to an order stands for its key in the
-- map. An order of the map is visited in the order of the association list, where Go leaves the order
-- open. Counters are natural numbers without an upper bound, where the program has int64.
--
-- Bounds: the loop of submitWithRetry is a recursion on the number of its rounds, maxRetries + 1, or 0
-- for a negative maxRetries; it needs no further fuel. The binary search of sort.Search runs on
-- fuel, the length of the list, of which each round uses one and halves the interval. The loop of
-- scheduleRestart is a recursion on the failures that are left, three at first, as in the source. All
-- other recursions are on lists and texts.
--
-- Not modelled: the text of messages and logs; the capacity of channels and the callers' side of the
-- command channel; locks, since one goroutine owns the state; nil receivers and nil signals; Start, Stop
-- and the fan-in of the executors' events; the projection's timer and its refresh hook; the
-- engine's start and stop, and the messages and heartbeats of the strategies; reconciliation; the backoff
-- before a restart, which is floating point. The exchange clients, the gRPC and SQLite
-- adapters, the strategy processes, the command line, the configuration and the logger are input and
-- output.
pub mod Prelude
pub mod Numbers
pub mod Models
pub mod Risk
pub mod Oms
pub mod Equity
pub mod Decision
pub mod Klines
pub mod Projection
pub mod Engine
pub mod Exchange
pub mod Perp
