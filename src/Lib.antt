-- ===== src/Lib.antt =====
-- The trading executor: one loop for each strategy, which places, reprices and cancels one maker
-- order at a time at the exchange OKX, holds at most one position, and books the trades it closes.
--
-- The parts and the files that model them
--   app/orchestrator.py        Orchestrator: one turn of `while True` is `iteration`, the loop `run`.
--     The loop variables          Orchestrator/World     `World`, and the monad `M` of coroutines
--     the helper coroutines       Orchestrator/Calls     (also those of execution/trade_finalize.py)
--     filled, canceled orders     Orchestrator/Final     `on_filled`, `on_canceled`
--     resting orders              Orchestrator/Resting   `on_resting`: reprice, or give up
--     entering, leaving           Orchestrator/Enter, Orchestrator/Leave
--     the body and the loop       Orchestrator/Iteration
--   app/position_reconcile.py  Reconcile, Orchestrator/Startup
--   app/position_state.py      Position: targets, reasons to leave, maker prices, stale orders
--   strategy/random_baseline/  Strategy: when it decides, and its cooldown
--   execution/trade_lifecycle.py  Lifecycle: the tracker of one trade
--   accounting/                Accounting: fees from fills, estimated fees, results
--   execution/trade_finalize.py   Finalize: the record of a closed trade
--   exchange/protocols.py, exchange/okx/models.py  Exchange: the client as a record of operations
--   exchange/okx/stub_client.py   Exchange/Stub: a client that fills every order at once
--   exchange/okx/rest_client.py   Exchange/Rest: the calls of the protocol, as HTTP requests
--     values, requests, errors    Exchange/Rest/Json, Exchange/Rest/Call
--     records, calls              Exchange/Rest/Parse, Exchange/Rest/Market, Exchange/Rest/Client
--   persistence/executor_store.py Store: what a call does to SQLite, and what the journal is handed
--     its state, orders, trades   Store/State, Store/Orders, Store/Trades
--   persistence/sqlite_store.py   Sqlite: the tables, one function for each statement
--   persistence/postgres_journal.py  Journal: the queue, and the turns of the thread
--     operations, rows, tables    Journal/Events, Journal/Rows, Journal/Positions, Journal/Tables
--   app/strategy_manager.py    Manager: tasks, their table, and the commands that start and stop them
--     the shutdown                Manager/Shutdown       `shutdown_all`
--   app/bootstrap.py           Bootstrap: which exchange client a process has, or the error
--   control/app.py, app/main.py   Control: the requests, and the options, that enqueue a command
--
-- How they interact: an iteration reads the ticker, the open orders and the positions, takes over a
-- position that it did not know of, looks up the order in hand and acts on its state, and, with no
-- order in hand, enters or leaves. Every call of the exchange returns or raises and changes a state
-- of the exchange's own, about which nothing is assumed: `ExchangeClient` is a parameter of the
-- model, and the theorems on the loop hold for all its instances. An exception keeps what was
-- changed before it, and is caught where the code catches it.
-- The calls that the loop makes of the store stand in `World.journal`. `perform_all` (Store) runs them
-- on an `ExecutorStore`, which writes to its `Sqlite` at once and hands operations to the journal; the
-- journal's thread takes them from its queue, and `execute_all` (Journal/Tables) is what those that
-- are committed make of the tables of PostgreSQL. Store/Book has the abstract view of both databases:
-- a `Book` of the positions, with their entries and whether they are open. Durable composes the loop
-- with its store, from `session` on, which is the reconciliation at the start and the loop, and
-- Durable/Delivered both with the thread of the journal.
-- `okx_rest_client` (Exchange/Rest/Client) is one instance of `ExchangeClient`, `stub_client` another.
--
-- Conventions
--   A decimal is a whole number of quanta (`Decimal`), of which `quanta_per_unit` make one. Sums,
--   differences and products are exact; a product of two decimals counts quanta of quanta, so fees
--   are of the third degree and results of the second. A quotient is kept as a fraction. The
--   context of 28 digits and the conversion to floats are not modelled. A time is a number of
--   microseconds, a span the difference of two; settings in seconds are whole numbers.
--   Writes to the store are recorded in `World.journal`, requests that can change orders in
--   `World.sent`, newest first. The store of the loop does not raise: where SQLite refuses a write, in
--   a handler of an exception too (app/orchestrator.py, lines 183 and 943), the exception leaves the
--   iteration in the code, and that is not modelled. Of a service event the type and the
--   strategy are kept, of ids and random choices that they depend on how many were drawn.
--   Other tasks change the control while an iteration waits, so a `Reading` has it twice. The loop
--   is a recursion on its readings: as many iterations as there are readings, or fewer when it
--   stops; there is no fuel.
--   The manager works on rounds; tasks end between them, and how a task ends that is awaited is an
--   argument. `Agrees` (Manager/Agreement) says that a strategy's row is "running" exactly while it
--   has a task that has not ended; `ClosedIf` (Manager/Closed) that a command is done or failed.
--   The store's dictionaries are functions and its sets lists. A table is a list of rows, oldest
--   first; a statement that SQLite or PostgreSQL refuses raises in the code, and only the journal's
--   thread handles that by itself: its `Answer` says whether a write, a commit and a rollback are
--   taken. What the store hands to the journal is kept in `enqueued`, in order. The thread is replayed
--   on a list of events,
--   each of which puts an item into the queue or is one turn of the thread: there is no fuel.
--   A response of OKX is a `Json` value, or one of the ways in which the transport ends. The transport,
--   with its headers and signature, and what Python's library makes of a value (`Library`) are
--   parameters; nothing is assumed of either.
--
-- Not modelled: errors of SQLite, the connection to PostgreSQL and the waits for its thread, the
-- migrations of the schemas, the headers and signatures of HTTP requests, the listings and replies of the control API,
-- the reading of settings, process start, sleeps, logging, and cancellation of a task.
--
-- The predicates of the theorems: `OrderFits` (Orchestrator/Managed) says of an exit order that it
-- is on the side opposite to the position in hand, for its whole size and reduce-only, and of an
-- entry order that it is not reduce-only. `IsLeaving` (Orchestrator/Asked) says what is sent for an
-- exit and what is in hand then, `IsSwept` (Orchestrator/Adopted) what the start may
-- cancel and adopt, `IsTraded` (Orchestrator/Trade) what a trade comes to whose two
-- prices `IsPaid` gives. `placed` and `opening` (Orchestrator/Quiet) count the
-- requests that place an order, and those of them that are not reduce-only. `IsBounded`
-- (Journal/Queue) bounds the queue and the open transaction, `held` (Journal/Held) is what the
-- journal still has, `IsFlushed` (Journal/Flush) says that the thread has ended and left nothing,
-- `IsOnce` (Store/Inserted) that each order known as submitted was inserted once and no other was.
-- Tests runs the definitions on the stub client.
pub mod Prelude
pub mod Decimal
pub mod Exchange
pub mod Strategy
pub mod Position
pub mod Lifecycle
pub mod Accounting
pub mod Finalize
pub mod Reconcile
pub mod Sqlite
pub mod Journal
pub mod Store
pub mod Durable
pub mod Orchestrator
pub mod Bootstrap
pub mod Manager
pub mod Control
pub mod Tests
