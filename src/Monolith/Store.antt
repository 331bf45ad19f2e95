-- ===== src/Monolith/Store.antt =====
-- The tables of internal/model, and the statements on them of internal/dao with the constraints of
-- migrations/0*.sql. The items of an order stand with its row.
use Prim.Native.String.{String}
use text.Mathlib.Text.{◌==◌ as str_eq}
use go_order_management_syst.Prelude.{
  ℕ, Bool, true, false, not, ◌&&◌, ◌||◌, List, [], ◌∷◌, ◌++◌, Option, none, some, ◌==◌,
  if◌then◌else◌,
}
use go_order_management_syst.Prelude.Int64.{
  Int64, is_positive, is_negative, signed_leb, wrapping_add,
}
use go_order_management_syst.Database.Table.{find, modify, exists}
use go_order_management_syst.Inventory.Store.{column_sub}

pub data ProductStatus : Type 0 where
  on_sale off_sale : ProductStatus

pub record Product : Type 0 where
  pub id : Int64
  pub name : String
  pub description : String
  pub price_fen : Int64
  pub status : ProductStatus

-- CHECK (stock_quantity >= 0)
pub record Inventory : Type 0 where
  pub product_id : Int64
  pub stock_quantity : ℕ

pub data OrderStatus : Type 0 where
  pending paid finished cancelled : OrderStatus

pub record OrderItem : Type 0 where
  pub product_id : Int64
  pub product_name : String
  pub product_price_fen : Int64
  pub quantity : Int64
  pub subtotal_fen : Int64

pub record Order : Type 0 where
  pub id : Int64
  pub user_id : Int64
  pub order_no : String
  pub total_amount_fen : Int64
  pub status : OrderStatus
  pub created_at : ℕ
  pub paid_at : Option ℕ
  pub completed_at : Option ℕ
  pub cancelled_at : Option ℕ
  pub items : List OrderItem

pub data BizType : Type 0 where
  biz_init biz_manual_add biz_order_deduct biz_order_rollback : BizType

pub record StockLog : Type 0 where
  pub product_id : Int64
  pub change_quantity : Int64
  pub before_quantity : Int64
  pub after_quantity : Int64
  pub biz_type : BizType
  pub biz_id : Option Int64

pub data KeyStatus : Type 0 where
  being_created already_created : KeyStatus

pub record IdempotencyKey : Type 0 where
  pub user_id : Int64
  pub idempotency_key : String
  pub request_hash : String
  pub order_id : Option Int64
  pub status : KeyStatus

pub record TimeoutOutbox : Type 0 where
  pub event_id : String
  pub order_id : Int64
  pub user_id : Int64
  pub timeout_at : ℕ
  pub published_at : Option ℕ
  pub attempts : ℕ
  pub next_attempt_at : ℕ

pub record Tables : Type 0 where
  pub products : List Product
  pub inventories : List Inventory
  pub orders : List Order
  -- newest first
  pub logs : List StockLog
  pub keys : List IdempotencyKey
  pub outbox : List TimeoutOutbox
  -- AUTO_INCREMENT of the orders
  pub next_order : Int64

-- The errors of internal/service/service_error.go that the modelled operations return.
pub data Error : Type 0 where
  invalid_user_id invalid_idempotency_key order_idempotency_conflict : Error
  order_idempotency_state_invalid order_being_created duplicate_order_item : Error
  product_not_found product_off_sale inventory_not_found insufficient_stock : Error
  invalid_product_price invalid_product_name invalid_product_description : Error
  product_on_sale_failed product_off_sale_failed create_stock_log_failed order_not_found
        order_already_paid order_already_finished :
      Error
  order_already_canceled order_not_paid order_cancel_failed order_pay_failed : Error
  order_finish_failed invalid_stock_quantity init_inventory_exists init_inventory_failed : Error
  invalid_add_quantity deadline_not_reached : Error
  -- `gorm.ErrRecordNotFound` where it is passed on, and any other error of the database
  record_not_found db_error : Error

abbrev pub same_product_status : ProductStatus → ProductStatus → Bool
same_product_status on_sale on_sale = true
same_product_status off_sale off_sale = true
same_product_status _ _ = false

abbrev pub same_status : OrderStatus → OrderStatus → Bool
same_status pending pending = true
same_status paid paid = true
same_status finished finished = true
same_status cancelled cancelled = true
same_status _ _ = false

abbrev pub has_product_id : Int64 → Product → Bool
has_product_id id p = p.id == id

abbrev pub of_product : Int64 → Inventory → Bool
of_product product_id i = i.product_id == product_id

abbrev pub has_id : Int64 → Order → Bool
has_id id o = o.id == id

abbrev pub has_key : Int64 → String → IdempotencyKey → Bool
has_key user_id key k = k.user_id == user_id && str_eq k.idempotency_key key

abbrev pub only_if : {A : Type 0} → (A → Bool) → Option A → Option A
only_if condition none = none
only_if condition (some a) = if condition a then some a else none

-- `GetOrderByID`
abbrev pub find_order : Int64 → Int64 → Tables → Option Order
find_order user_id id t = only_if (λ o. o.user_id == user_id) (find (has_id id) t.orders)

-- `CreateOrder`: UNIQUE KEY (order_no); the answer is the new id.
unfoldable pub create_order_row : Order → Tables → Option (Int64 × Tables)
create_order_row o t =
    if exists (λ x. str_eq x.order_no o.order_no) t.orders
    then none
    else some (
      t.next_order,
      record t {
        orders = record o { id = t.next_order } ∷ t.orders;
        next_order = wrapping_add t.next_order 1;
      },
    )

abbrev pub add_item : OrderItem → Order → Order
add_item item o = record o { items = o.items ++ item ∷ [] }

-- `CreateOrderItem`: CHECK (product_price_fen > 0), (quantity > 0), (subtotal_fen > 0)
unfoldable pub create_order_item : Int64 → OrderItem → Tables → Option (Unit {0} × Tables)
create_order_item order_id item t =
    if is_positive item.product_price_fen
      && is_positive item.quantity
      && is_positive item.subtotal_fen
    then some (tt, record t { orders = modify (has_id order_id) (add_item item) t.orders })
    else none

-- `CreateStockLog`: CHECK (before_quantity >= 0), (after_quantity >= 0) and
-- (after_quantity = before_quantity + change_quantity), which is exact
unfoldable pub create_stock_log : StockLog → Tables → Option (Unit {0} × Tables)
create_stock_log l t =
    if is_negative l.before_quantity
      || is_negative l.after_quantity
      || not (l.after_quantity == wrapping_add l.before_quantity l.change_quantity)
    then none
    else some (tt, record t { logs = l ∷ t.logs })

abbrev pub put_stock : Int64 → ℕ → Tables → Tables
put_stock product_id stock t = record t {
  inventories =
      modify (of_product product_id) (λ i. record i { stock_quantity = stock }) t.inventories;
}

abbrev pub deducted : Int64 → Tables → Option ℕ → Option (ℕ × Tables)
deducted product_id t none = none
deducted product_id t (some stock) = some (1, put_stock product_id stock t)

-- `DeductInventory`: the count of the rows that were updated.
unfoldable pub deduct_inventory : Int64 → Int64 → Tables → Option (ℕ × Tables)
deduct_inventory product_id q t = elim (find (of_product product_id) t.inventories) [
  | none ↦ some (0, t)
  | some i ↦
      if signed_leb q i.stock_quantity
      then deducted product_id t (column_sub i.stock_quantity q)
      else some (0, t)
]

-- `UpdateInventoryStockQuantity`, with the test of the count of its rows.
unfoldable pub set_stock : Int64 → Int64 → Tables → Option (ℕ × Tables)
set_stock product_id stock t = elim (find (of_product product_id) t.inventories) [
  | none ↦ some (0, t)
  | some i ↦ if is_negative stock then none else some (1, put_stock product_id stock t)
]

-- `InitInventory`: UNIQUE KEY (product_id)
unfoldable pub create_inventory : Inventory → Tables → Option (Unit {0} × Tables)
create_inventory i t =
    if exists (of_product i.product_id) t.inventories || is_negative i.stock_quantity
    then none
    else some (tt, record t { inventories = i ∷ t.inventories })

-- `TryCreateOrderIdempotencyKey`: a conflict does nothing; whether the key is new.
unfoldable pub try_create_key : IdempotencyKey → Tables → Option (Bool × Tables)
try_create_key k t =
    if exists (has_key k.user_id k.idempotency_key) t.keys
    then some (false, t)
    else some (true, record t { keys = k ∷ t.keys })

abbrev pub is_being_created : KeyStatus → Bool
is_being_created being_created = true
is_being_created already_created = false

-- `CompleteOrderIdempotencyKey`: the count of the rows that were updated.
unfoldable pub complete_key : Int64 → String → Int64 → Tables → Option (ℕ × Tables)
complete_key user_id key order_id t = elim (find (has_key user_id key) t.keys) [
  | none ↦ some (0, t)
  | some k ↦
      if is_being_created k.status
      then some (
        1,
        record t {
          keys =
              modify (has_key user_id key)
                (λ x. record x { order_id = some order_id; status = already_created }) t.keys;
        },
      )
      else some (0, t)
]

abbrev pub stamp : OrderStatus → ℕ → Order → Order
stamp paid now o = record o { status = paid; paid_at = some now }
stamp finished now o = record o { status = finished; completed_at = some now }
stamp cancelled now o = record o { status = cancelled; cancelled_at = some now }
stamp pending now o = record o { status = pending }

-- `PatchOrderStatus`, with the time field of the new status.
unfoldable pub patch_order_status :
    ℕ → Int64 → Int64 → OrderStatus → OrderStatus → Tables → Option (ℕ × Tables)
patch_order_status now user_id id from to t = elim (find (has_id id) t.orders) [
  | none ↦ some (0, t)
  | some o ↦
      if o.user_id == user_id && same_status o.status from
      then some (1, record t { orders = modify (has_id id) (stamp to now) t.orders })
      else some (0, t)
]

abbrev pub set_total : Int64 → Int64 → Order → Order
set_total user_id total o =
    if o.user_id == user_id then record o { total_amount_fen = total } else o

-- `PatchOrderTotalPriceFen`: CHECK (total_amount_fen >= 0)
unfoldable pub patch_order_total : Int64 → Int64 → Int64 → Tables → Option (Unit {0} × Tables)
patch_order_total user_id id total t =
    if is_negative total
    then none
    else some (tt, record t { orders = modify (has_id id) (set_total user_id total) t.orders })

-- `CreateOrderTimeoutOutbox`: UNIQUE KEY (event_id) and (order_id)
unfoldable pub create_outbox : TimeoutOutbox → Tables → Option (Unit {0} × Tables)
create_outbox e t =
    if exists (λ x. str_eq x.event_id e.event_id || x.order_id == e.order_id) t.outbox
    then none
    else some (tt, record t { outbox = e ∷ t.outbox })
