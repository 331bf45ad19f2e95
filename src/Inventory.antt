-- ===== src/Inventory.antt =====
-- internal/inventorysvc: the stock of each product, and the reservations of orders.
pub mod Store
pub mod Normalize
pub mod Service
pub mod Accounts
pub mod Repeat
pub mod Handlers
mod Tests
