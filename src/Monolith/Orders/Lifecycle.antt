-- ===== src/Monolith/Orders/Lifecycle.antt =====
-- `CancelOrder`, `CancelExpiredOrder`, `cancelPendingOrder`, `PayOrder` and `FinishOrder` of
-- internal/service/order_service.go, each without another call in between.
use Prim.Native.String.{String}
use text.Mathlib.Text.{◌==◌ as str_eq}
use go_order_management_syst.Prelude.{
  ℕ, Bool, true, false, not, ◌&&◌, List, [], Option, none, some, ltb, ◌==◌, if◌then◌else◌,
}
use go_order_management_syst.Prelude.Int64.{Int64, wrapping_add}
use go_order_management_syst.Database.{
  ◌>>=◌, ◌>>◌, pure, raise, guard, or_raise, statement, query, transaction, for_each,
}
use go_order_management_syst.Database.Table.{find}
use go_order_management_syst.Monolith.Store.{
  OrderStatus, Order, OrderItem, StockLog, TimeoutOutbox, pending, paid, finished, cancelled,
  biz_order_rollback, order_not_found, order_already_paid, order_already_finished,
  order_already_canceled, order_not_paid, order_cancel_failed, order_pay_failed,
  order_finish_failed, deadline_not_reached, record_not_found, db_error, same_status, of_product,
  has_id, find_order, create_stock_log, set_stock, patch_order_status,
}
use go_order_management_syst.Monolith.Orders.Create.{Statements}

abbrev pub rollback_log : Int64 → Int64 → Int64 → Int64 → StockLog
rollback_log order_id product_id before quantity = record {
  product_id = product_id;
  change_quantity = quantity;
  before_quantity = before;
  after_quantity = wrapping_add before quantity;
  biz_type = biz_order_rollback;
  biz_id = some order_id;
}

-- One round of the loop of `cancelPendingOrder`.
unfoldable pub restore_item : Int64 → OrderItem → Statements (Unit {0})
restore_item order_id item = do
  found ← query db_error (λ t. find (of_product item.product_id) t.inventories)
  inventory ← or_raise found record_not_found
  rows ←
      statement db_error
        (set_stock item.product_id (wrapping_add inventory.stock_quantity item.quantity))
  guard (not (rows == 0)) record_not_found
  statement db_error (
      create_stock_log
        (rollback_log order_id item.product_id inventory.stock_quantity item.quantity))

abbrev pub items_in : Option Order → List OrderItem
items_in none = []
items_in (some o) = o.items

unfoldable pub restore_items : Int64 → Statements Bool
restore_items order_id = do
  items ← query db_error (λ t. items_in (find (has_id order_id) t.orders))
  for_each (restore_item order_id) items
  pure true

-- `cancelPendingOrder`: whether the order was cancelled.
unfoldable pub cancel_pending_order : ℕ → Order → Statements Bool
cancel_pending_order now order = do
  rows ← statement db_error (patch_order_status now order.user_id order.id pending cancelled)
  if rows == 0 then pure false else restore_items order.id

unfoldable pub cancel_found : ℕ → Order → OrderStatus → Statements (Unit {0})
cancel_found now order cancelled = pure tt
cancel_found now order paid = raise order_already_paid
cancel_found now order finished = raise order_already_finished
cancel_found now order pending = do
  done ← cancel_pending_order now order
  guard done order_cancel_failed

unfoldable pub cancel_body : ℕ → Int64 → Int64 → Statements (Unit {0})
cancel_body now user_id order_id = do
  found ← query db_error (find_order user_id order_id)
  order ← or_raise found order_not_found
  cancel_found now order order.status

-- `CancelOrder`
unfoldable pub cancel_order : ℕ → Int64 → Int64 → Statements (Unit {0})
cancel_order now user_id order_id = transaction db_error (cancel_body now user_id order_id)

abbrev pub is_event : String → Int64 → TimeoutOutbox → Bool
is_event event_id order_id e = str_eq e.event_id event_id && e.order_id == order_id

unfoldable pub expire_found : ℕ → Option Order → Statements (Unit {0})
expire_found now none = pure tt
expire_found now (some order) =
    if same_status order.status pending then cancel_pending_order now order >> pure tt else pure tt

unfoldable pub expire_due : ℕ → Int64 → Option TimeoutOutbox → Statements (Unit {0})
expire_due now order_id none = pure tt
expire_due now order_id (some e) = do
  guard (not (ltb now e.timeout_at)) deadline_not_reached
  found ← query db_error (λ t. find (has_id order_id) t.orders)
  expire_found now found

unfoldable pub expire_body : ℕ → String → Int64 → Statements (Unit {0})
expire_body now event_id order_id = do
  outbox ← query db_error (λ t. find (is_event event_id order_id) t.outbox)
  expire_due now order_id outbox

-- `CancelExpiredOrder`
unfoldable pub cancel_expired_order : ℕ → String → Int64 → Statements (Unit {0})
cancel_expired_order now event_id order_id =
    transaction db_error (expire_body now event_id order_id)

unfoldable pub pay_found : ℕ → Int64 → Order → OrderStatus → Statements (Unit {0})
pay_found now user_id order paid = raise order_already_paid
pay_found now user_id order finished = raise order_already_finished
pay_found now user_id order cancelled = raise order_already_canceled
pay_found now user_id order pending = do
  rows ← statement db_error (patch_order_status now user_id order.id pending paid)
  guard (not (rows == 0)) order_pay_failed

-- `PayOrder`
unfoldable pub pay_order : ℕ → Int64 → Int64 → Statements (Unit {0})
pay_order now user_id order_id = do
  found ← query db_error (find_order user_id order_id)
  order ← or_raise found order_not_found
  pay_found now user_id order order.status

unfoldable pub finish_found : ℕ → Int64 → Order → OrderStatus → Statements (Unit {0})
finish_found now user_id order pending = raise order_not_paid
finish_found now user_id order cancelled = raise order_already_canceled
finish_found now user_id order finished = raise order_already_finished
finish_found now user_id order paid = do
  rows ← statement db_error (patch_order_status now user_id order.id paid finished)
  guard (not (rows == 0)) order_finish_failed

-- `FinishOrder`
unfoldable pub finish_order : ℕ → Int64 → Int64 → Statements (Unit {0})
finish_order now user_id order_id = do
  found ← query db_error (find_order user_id order_id)
  order ← or_raise found order_not_found
  finish_found now user_id order order.status
