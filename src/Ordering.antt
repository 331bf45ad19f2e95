-- ===== src/Ordering.antt =====
-- internal/ordersvc: the orders, their Saga with the inventory service, and the workers.
pub mod Store
pub mod Items
pub mod Payment
pub mod Listing
pub mod Handlers
pub mod Cancellation
pub mod Creation
pub mod Life
pub mod Reconciliation
mod Tests
