-- ===== src/Monolith/Orders/Create.antt =====
-- `CreateOrder`.
use Prim.Native.String.{String}
use text.Mathlib.Text.{◌==◌ as str_eq}
use go_order_management_syst.Prelude.{
  ℕ, ◌+◌, not, ◌||◌, List, [], ◌∷◌, Option, none, some, ltb, ◌==◌, if◌then◌else◌,
}
use go_order_management_syst.Prelude.Int64.{
  Int64, is_positive, is_negative, wrapping_add, wrapping_mul, wrapping_neg,
}
use go_order_management_syst.Prelude.Text.{trim_space, is_empty, byte_length}
use go_order_management_syst.Database.{
  Action, ◌>>=◌, ◌>>◌, pure, raise, guard, or_raise, statement, query, transaction,
}
use go_order_management_syst.Database.Table.{find}
use go_order_management_syst.Monolith.Store.{
  Product, OrderItem, Order, StockLog, IdempotencyKey, Tables, Error, pending, on_sale,
  being_created, already_created, KeyStatus, biz_order_deduct, invalid_user_id,
  invalid_idempotency_key, order_idempotency_conflict, order_idempotency_state_invalid,
  order_being_created, duplicate_order_item, product_not_found, product_off_sale,
  inventory_not_found, insufficient_stock, create_stock_log_failed, record_not_found, db_error,
  same_product_status, has_product_id, of_product, has_key, find_order, create_order_row,
  create_order_item, create_stock_log, deduct_inventory, try_create_key, complete_key,
  patch_order_total, create_outbox,
}
use go_order_management_syst.Monolith.Orders.Hash.{ItemRequest, request_hash, has_duplicate}

abbrev pub Statements : Type 0 → Type 0
Statements A = Action Tables Error A

pub record CreateRequest : Type 0 where
  pub idempotency_key : String
  pub items : List ItemRequest

-- What the service takes from its surroundings: the clock, the timeout, the new texts and the digest.
pub record Surroundings : Type 0 where
  pub now : ℕ
  pub order_timeout : ℕ
  pub order_no : String
  pub event_id : String
  pub digest : List ItemRequest → String

-- An order that exists already for a completed key.
unfoldable pub known_order : Int64 → Option Int64 → Statements Order
known_order user_id none = raise order_idempotency_state_invalid
known_order user_id (some id) = do
  guard (is_positive id) order_idempotency_state_invalid
  found ← query db_error (find_order user_id id)
  or_raise found order_idempotency_state_invalid

unfoldable pub by_key_status : Int64 → KeyStatus → Option Int64 → Statements Order
by_key_status user_id already_created order_id = known_order user_id order_id
by_key_status user_id being_created order_id = raise order_being_created

-- The branch of a key that is there already.
unfoldable pub replay : Int64 → String → String → Statements Order
replay user_id key hash = do
  found ← query db_error (λ t. find (has_key user_id key) t.keys)
  k ← or_raise found record_not_found
  guard (str_eq k.request_hash hash) order_idempotency_conflict
  by_key_status user_id k.status k.order_id

abbrev pub new_item : Product → Int64 → OrderItem
new_item p quantity = record {
  product_id = p.id;
  product_name = p.name;
  product_price_fen = p.price_fen;
  quantity = quantity;
  subtotal_fen = wrapping_mul p.price_fen quantity;
}

abbrev pub deduct_log : Int64 → Int64 → Int64 → Int64 → StockLog
deduct_log order_id product_id before quantity = record {
  product_id = product_id;
  change_quantity = wrapping_neg quantity;
  before_quantity = before;
  after_quantity = wrapping_add before (wrapping_neg quantity);
  biz_type = biz_order_deduct;
  biz_id = some order_id;
}

-- A statement whose error is replaced by `ErrCreateStockLogFailed`.
unfoldable pub log_stock : StockLog → Statements (Unit {0})
log_stock l = statement create_stock_log_failed (create_stock_log l)

-- The statements of one round of the loop over the items, with the subtotal as their answer.
unfoldable pub take_item : Int64 → ItemRequest → Product → ℕ → Statements Int64
unfolding log_stock
take_item order_id item product before = do
  rows ← statement db_error (deduct_inventory item.product_id item.quantity)
  guard (not (rows == 0)) insufficient_stock
  statement db_error (create_order_item order_id (new_item product item.quantity))
  log_stock (deduct_log order_id product.id before item.quantity)
  pure (wrapping_mul product.price_fen item.quantity)

-- One round of the loop.
unfoldable pub order_line : Int64 → ItemRequest → Statements Int64
order_line order_id item = do
  found ← query db_error (λ t. find (has_product_id item.product_id) t.products)
  product ← or_raise found product_not_found
  guard (same_product_status product.status on_sale) product_off_sale
  stocked ← query db_error (λ t. find (of_product item.product_id) t.inventories)
  inventory ← or_raise stocked inventory_not_found
  guard (not (is_negative (wrapping_add inventory.stock_quantity (wrapping_neg item.quantity))))
      insufficient_stock
  take_item order_id item product inventory.stock_quantity

unfoldable pub order_lines : Int64 → Int64 → List ItemRequest → Statements Int64
order_lines order_id total [] = pure total
order_lines order_id total (item ∷ items) = do
  subtotal ← order_line order_id item
  order_lines order_id (wrapping_add total subtotal) items

abbrev pub new_order : Surroundings → Int64 → Order
new_order s user_id = record {
  id = 0;
  user_id = user_id;
  order_no = s.order_no;
  total_amount_fen = 0;
  status = pending;
  created_at = s.now;
  paid_at = none;
  completed_at = none;
  cancelled_at = none;
  items = [];
}

-- `CompleteOrderIdempotencyKey`, whose error is replaced.
unfoldable pub finish_key : Int64 → String → Int64 → Statements (Unit {0})
finish_key user_id key order_id = do
  rows ← statement order_idempotency_state_invalid (complete_key user_id key order_id)
  guard (rows == 1) order_idempotency_state_invalid

-- The rest of the transaction for a new key.
unfoldable pub create_new : Surroundings → Int64 → CreateRequest → Statements Order
create_new s user_id req = do
  id ← statement db_error (create_order_row (new_order s user_id))
  guard (not (has_duplicate [] req.items)) duplicate_order_item
  total ← order_lines id 0 req.items
  statement db_error (patch_order_total user_id id total)
  finish_key user_id req.idempotency_key id
  statement db_error (
      create_outbox (record {
        event_id = s.event_id;
        order_id = id;
        user_id = user_id;
        timeout_at = s.now + s.order_timeout;
        published_at = none;
        attempts = 0;
        next_attempt_at = s.now;
      }))
  pure (record (new_order s user_id) { id = id; total_amount_fen = total })

abbrev pub new_key : Int64 → String → String → IdempotencyKey
new_key user_id key hash = record {
  user_id = user_id;
  idempotency_key = key;
  request_hash = hash;
  order_id = none;
  status = being_created;
}

unfoldable pub create_body : Surroundings → Int64 → CreateRequest → String → Statements Order
create_body s user_id req hash = do
  acquired ← statement db_error (try_create_key (new_key user_id req.idempotency_key hash))
  if acquired then create_new s user_id req else replay user_id req.idempotency_key hash

-- `CreateOrder`
unfoldable pub create_order : Surroundings → Int64 → CreateRequest → Statements Order
create_order s user_id req = do
  guard (is_positive user_id) invalid_user_id
  guard
      (not (is_empty (trim_space req.idempotency_key) || ltb 128 (byte_length req.idempotency_key)))
      invalid_idempotency_key
  transaction db_error (create_body s user_id req (request_hash s.digest req.items))
