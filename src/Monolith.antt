-- ===== src/Monolith.antt =====
-- The single-process service of internal/service, internal/dao and internal/model: its orders and
-- what its tables say of a product's stock.
pub mod Store
pub mod Orders
pub mod Stock
pub mod Books
pub mod Replay
pub mod Life
pub mod Products
pub mod Expiry
mod Tests
