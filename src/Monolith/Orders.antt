-- ===== src/Monolith/Orders.antt =====
-- `OrderService` of internal/service/order_service.go.
pub mod Hash
pub mod Create
pub mod Lifecycle
