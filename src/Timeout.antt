-- ===== src/Timeout.antt =====
-- The worker of internal/ordersvc/worker.go that publishes the timeout events of the orders and
-- handles their delivery. RabbitMQ, the order service and `encoding/json` are parameters.
pub mod Outbox
pub mod Publish
pub mod Delivery
pub mod Lease
mod Tests
