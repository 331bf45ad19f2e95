-- ===== src/Lib.antt =====
-- The order management system: an order service, an inventory service and a catalog service, each
-- with a database of its own, that call each other over HTTP through a retrying client with
-- circuit breakers. An order is a saga: the order service inserts it, has the inventory service
-- reserve its items, and later confirms the reservation (a payment) or releases it (a
-- cancellation); what a failing database leaves half done, a worker reconciles.
--
-- The modules and the code they model:
-- Prelude: numbers, lists and texts. `Int64` is Go's int64 as its 64-bit pattern, with
--   wrap-around.
-- Database: a database is its tables and the answers that it will give to the next statements, so
--   that each statement, and each commit, may fail. `Action` is the monad of statements,
--   `transaction` is gorm's `Transaction` with its rollback. Database.Table has the rows,
--   Database.Ensures and Database.Outcome are postconditions of actions. Database.Page is the
--   paging of the listings, and Database.Sorted what their order promises.
-- Web: the answers of the HTTP handlers. Each service has its handlers behind their authorization
--   in a module Handlers.
-- Catalog: internal/catalogsvc/catalog.go.
-- Inventory: internal/inventorysvc/inventory.go. Store has the tables, their constraints and the
--   updates; Normalize is `normalizeItems`; Service has `Get`, `Init`, `Add`, `Reserve`, `Confirm`
--   and `Release` (`transition`). Accounts are the books that must balance, and Repeat is about
--   repeated requests.
-- Ordering: internal/ordersvc/order.go. Store has the tables and the trigger of
--   migrations/ordering/00003_reconciliation_tasks.sql; Items is `resolveItems`; Payment is `Pay`
--   and `Finish`, Cancellation is `cancel`, `Cancel` and `TimeoutCancel`, Creation is `Create`.
--   `Pay` and `cancel` are in two parts, before and after their call of the inventory service;
--   Life interleaves their steps. Reconciliation is internal/ordersvc/reconciliation_worker.go and
--   internal/ordersvc/reconciliation_dry_run.go.
-- Timeout: internal/ordersvc/worker.go, which publishes the timeout events of the orders (Publish,
--   on the rows of Outbox) and handles their delivery (Delivery).
-- Monolith: the single-process service, whose tables stand in internal/model and whose statements
--   in internal/dao (Store). Orders is internal/service/order_service.go: Hash and Create are
--   `CreateOrder`, Lifecycle is `CancelOrder`, `CancelExpiredOrder`, `PayOrder` and `FinishOrder`.
--   Stock is internal/service/inventory_service.go. Books are what its tables say of a product's
--   stock, Replay is about repeated requests, and Life is the state machine of an order. Products
--   is internal/service/product_service.go with the cache of internal/bizcache, whose entries do
--   not expire here; Expiry is internal/ordertimeout, worker.go and event.go.
-- Resilience: internal/platform/resiliencehttp. Breaker is circuit_breaker.go, with Session for
--   concurrent callers; Retry is the executor of client.go.
--
-- Parameters: for the order service, the catalog and the inventory service are functions from a
-- request to its answer; for the retry executor, the clock, the jitter, the sleep and the HTTP
-- client are what they answer in each round; for the timeout worker, the message queue is its
-- answer to each publication; for the listings, what the database answers to an offset. New UUIDs,
-- and the JSON text and SHA-256 digest of a list of items, are arguments.
--
-- Assumptions: a statement or a commit that fails has no effect; one whose answer is lost after it
-- took effect is not modelled. Keys and texts in conditions are compared exactly, although the
-- collation of the columns does not tell upper and lower case apart. The calls of the single-process
-- service run one after the other: its transactions lock the inventory rows that they change stock
-- in, but read orders, products, keys and events without a lock, and `PayOrder` and `FinishOrder` run
-- outside a transaction. There only unique keys and the conditions of the updates protect a call
-- from another one, and nothing is shown of such interleavings. The product service takes no lock
-- either; `GetProductByID` is in two parts, and Products.Race has another call between them.
--
-- Bounds: the loop of `Do` runs on as many rounds as the policy permits attempts, and the result
-- on it shows that it never runs out of them. The loop of `backoff` runs on the number of its
-- rounds; all other loops are recursion on a list. Times are numbers of nanoseconds. Stock
-- quantities in the inventory tables are natural numbers, since the columns do not admit negative
-- ones, and an addition beyond 2 ^ 63 - 1 is an error of the database. A key is found in the first
-- row that has it: keys are unique.
--
-- Not modelled: routing, authorization and the parsing of request bodies, gRPC adapters, metrics
-- and logs, the AMQP session of the timeout worker and its publisher, the rate limiter
-- (floating-point numbers), the users of the single-process service, its handlers and the AMQP
-- session of its timeout worker, the gateway and the frontend. Texts of errors are error values, so
-- the cutting of a failure reason at 500 bytes is left out.
pub mod Prelude
pub mod Database
pub mod Resilience
pub mod Inventory
pub mod Ordering
pub mod Timeout
pub mod Monolith
pub mod Web
pub mod Catalog
