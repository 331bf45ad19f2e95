-- ===== src/Monolith/Stock.antt =====
-- `InitInventory` and `AddInventory` of internal/service/inventory_service.go.
use go_order_management_syst.Prelude.{not, Option, none, some, ◌==◌, ℕ}
use go_order_management_syst.Prelude.Int64.{Int64, is_positive, is_negative, wrapping_add}
use go_order_management_syst.Database.{
  ◌>>=◌, ◌>>◌, raise, guard, or_raise, statement, query, transaction,
}
use go_order_management_syst.Database.Table.{find, exists}
use go_order_management_syst.Monolith.Store.{
  StockLog, BizType, biz_init, biz_manual_add, invalid_stock_quantity, init_inventory_exists,
  init_inventory_failed, invalid_add_quantity, product_not_found, inventory_not_found,
  record_not_found, db_error, has_product_id, of_product, create_inventory, set_stock,
}
use go_order_management_syst.Monolith.Orders.Create.{Statements, log_stock}

abbrev pub supply_log : BizType → Int64 → Int64 → Int64 → Int64 → StockLog
supply_log biz_type product_id before after change = record {
  product_id = product_id;
  change_quantity = change;
  before_quantity = before;
  after_quantity = after;
  biz_type = biz_type;
  biz_id = none;
}

unfoldable pub init_body : Int64 → ℕ → Statements (Unit {0})
init_body product_id stock = do
  statement init_inventory_failed
      (create_inventory (record { product_id = product_id; stock_quantity = stock }))
  log_stock (supply_log biz_init product_id 0 stock stock)

-- The part of `InitInventory` after its first test.
unfoldable pub init_product : Int64 → ℕ → Statements (Unit {0})
init_product product_id stock = do
  guard (not (is_negative stock)) invalid_stock_quantity
  found ← query db_error (λ t. find (has_product_id product_id) t.products)
  product ← or_raise found product_not_found
  initialized ← query db_error (λ t. exists (of_product product_id) t.inventories)
  guard (not initialized) init_inventory_exists
  transaction db_error (init_body product.id stock)

-- `InitInventory`
unfoldable pub init_inventory : Int64 → Option Int64 → Statements (Unit {0})
init_inventory product_id none = raise invalid_stock_quantity
init_inventory product_id (some stock) = init_product product_id stock

unfoldable pub add_body : Int64 → Int64 → Statements (Unit {0})
add_body product_id quantity = do
  found ← query db_error (λ t. find (of_product product_id) t.inventories)
  inventory ← or_raise found inventory_not_found
  known ← query db_error (λ t. find (has_product_id product_id) t.products)
  or_raise known product_not_found
  rows ← statement db_error (set_stock product_id (wrapping_add inventory.stock_quantity quantity))
  guard (not (rows == 0)) record_not_found
  log_stock (
      supply_log biz_manual_add product_id inventory.stock_quantity
        (wrapping_add inventory.stock_quantity quantity) quantity)

-- `AddInventory`
unfoldable pub add_inventory : Int64 → Int64 → Statements (Unit {0})
add_inventory product_id quantity = do
  guard (is_positive quantity) invalid_add_quantity
  transaction db_error (add_body product_id quantity)
