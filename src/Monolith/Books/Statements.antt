-- ===== src/Monolith/Books/Statements.antt =====
-- What each statement of internal/dao does to the books of one product.
use Prim.Native.String.{String}
use go_order_management_syst.Prelude.{
  ℕ, ◌+◌, ◌-◌, ◌%◌, ◌≡◌, refl, inl, inr, true, List, [], ◌∷◌, ◌++◌, some, arith, Option-cases, ◌==◌,
  false, Bool, none, ◌&&◌, sum_by, ◌⊎◌,
}
use go_order_management_syst.Prelude.Int64.{Int64, is_positive, wrapping_add}
use go_order_management_syst.Database.Table.{find, modify, sum_by-modify, find_holds}
use go_order_management_syst.Monolith.Store.{
  Inventory, OrderItem, Order, OrderStatus, pending, cancelled, Tables, StockLog, of_product,
  has_id, put_stock, add_item, stamp, set_total, deduct_inventory, set_stock, has_key,
  TimeoutOutbox, IdempotencyKey, complete_key, create_outbox, try_create_key, create_order_item,
  create_stock_log, patch_order_status, patch_order_total, create_order_row, paid, finished,
  same_status,
}
use go_order_management_syst.Monolith.Books.{of_p, stock_of, in_items, taken_by, taken}

-- The stock after one row of a product is replaced.
put_stock-stock_of :
    (p product_id : Int64) (n : ℕ) (t : Tables) (i : Inventory)
    → find (of_product product_id) t.inventories ≡ some i
    → stock_of p (put_stock product_id n t) + of_p p product_id i.stock_quantity
      ≡ stock_of p t + of_p p product_id n
put_stock-stock_of p product_id n t i found = ground (
  arith,
  find_holds (of_product product_id) t.inventories i found,
  sum_by-modify (λ (k : Inventory). of_p p k.product_id k.stock_quantity) (of_product product_id)
      (λ k. record k { stock_quantity = n }) t.inventories i found,
)

-- How a statement moves the stock of the product `p`, and changes nothing else in the books.
pub record Moved (p : Int64) (t t' : Tables) (out back : ℕ) : Type 0 where
  pub stock_moved :
      (stock_of p t' + out) % 18446744073709551616 ≡ (stock_of p t + back) % 18446744073709551616
  pub same_orders : t'.orders ≡ t.orders
  pub same_logs : t'.logs ≡ t.logs

pub deduct_inventory-Moved :
    (p product_id q rows : ℕ) (t t' : Tables)
    → is_positive q ≡ true
    → (rows == 0) ≡ false
    → deduct_inventory product_id q t ≡ some (rows, t')
    → Moved p t t' (of_p p product_id q) 0
unfolding deduct_inventory
deduct_inventory-Moved p product_id q rows t t' pos changed e =
    elim (Option-cases (find (of_product product_id) t.inventories)) [
      | inl missing ↦ ground arith
      | inr (i, found) ↦
          ground (arith, put_stock-stock_of p product_id (i.stock_quantity - q) t i found)
    ]

pub set_stock-Moved :
    (p product_id q rows : ℕ) (t t' : Tables) (i : Inventory)
    → find (of_product product_id) t.inventories ≡ some i
    → (rows == 0) ≡ false
    → set_stock product_id (wrapping_add i.stock_quantity q) t ≡ some (rows, t')
    → Moved p t t' 0 (of_p p product_id q)
unfolding set_stock
set_stock-Moved p product_id q rows t t' i found changed e = ground (
  arith,
  put_stock-stock_of p product_id ((i.stock_quantity + q) % 18446744073709551616) t i found,
)

in_items-append :
    (p : Int64) (item : OrderItem) (items : List OrderItem)
    → in_items p (items ++ item ∷ []) ≡ in_items p items + of_p p item.product_id item.quantity
in_items-append p item [] = ground arith
in_items-append p item (x ∷ items) = ground (arith, in_items-append p item items)

-- How a statement changes what the orders take of `p`, and nothing else in the books.
pub record Takes (p : Int64) (t t' : Tables) (out back : ℕ) : Type 0 where
  pub taken_moved : taken p t' + out ≡ taken p t + back
  pub same_inventories : t'.inventories ≡ t.inventories
  pub same_logs : t'.logs ≡ t.logs

pub create_order_item-Takes :
    (p id : Int64) (item : OrderItem) (t t' : Tables) (o : Order) (u : Unit {0})
    → find (has_id id) t.orders ≡ some o
    → o.status ≡ pending
    → create_order_item id item t ≡ some (u, t')
    → Takes p t t' 0 (of_p p item.product_id item.quantity)
unfolding create_order_item
create_order_item-Takes p id item t t' o u found is_pending e = ground (
  arith,
  in_items-append p item o.items,
  sum_by-modify (taken_by p) (has_id id) (add_item item) t.orders o found,
)

pub create_order_item_rows :
    (id : Int64) (item : OrderItem) (t t' : Tables) (u : Unit {0})
    → create_order_item id item t ≡ some (u, t')
    → (is_positive item.quantity ≡ true) × (t'.orders ≡ modify (has_id id) (add_item item) t.orders)
unfolding create_order_item
create_order_item_rows id item t t' u e = ground arith

-- A change of one order that keeps what it takes.
modify-taken :
    (p id : Int64) (f : Order → Order) (os : List Order)
    → ((o : Order) → taken_by p (f o) ≡ taken_by p o)
    → sum_by (taken_by p) (modify (has_id id) f os) ≡ sum_by (taken_by p) os
modify-taken p id f [] keep = refl
modify-taken p id f (o ∷ os) keep = ground (arith, keep o, modify-taken p id f os keep)

set_total-taken :
    (p user_id total : Int64) (o : Order) → taken_by p (set_total user_id total o) ≡ taken_by p o
set_total-taken p user_id total o = ground arith

pub patch_order_total-Takes :
    (p user_id id total : Int64) (t t' : Tables) (u : Unit {0})
    → patch_order_total user_id id total t ≡ some (u, t')
    → Takes p t t' 0 0
unfolding patch_order_total
patch_order_total-Takes p user_id id total t t' u e =
    ground (
      arith,
      modify-taken p id (set_total user_id total) t.orders (set_total-taken p user_id total),
    )

pub patch_order_total_rows :
    (user_id id total : Int64) (t t' : Tables) (u : Unit {0})
    → patch_order_total user_id id total t ≡ some (u, t')
    → t'.orders ≡ modify (has_id id) (set_total user_id total) t.orders
unfolding patch_order_total
patch_order_total_rows user_id id total t t' u e = ground arith

-- Statements on the keys and the outbox leave the books alone.
pub record SameBooks (t t' : Tables) : Type 0 where
  pub same_inventories : t'.inventories ≡ t.inventories
  pub same_orders : t'.orders ≡ t.orders
  pub same_logs : t'.logs ≡ t.logs

pub complete_key-SameBooks :
    (user_id : Int64) (key : String) (id rows : Int64) (t t' : Tables)
    → complete_key user_id key id t ≡ some (rows, t')
    → SameBooks t t'
unfolding complete_key
complete_key-SameBooks user_id key id rows t t' e =
    elim (Option-cases (find (has_key user_id key) t.keys)) [
      | inl missing ↦ ground arith
      | inr (k, found) ↦ ground arith
    ]

pub create_outbox-SameBooks :
    (e : TimeoutOutbox) (t t' : Tables) (u : Unit {0})
    → create_outbox e t ≡ some (u, t')
    → SameBooks t t'
unfolding create_outbox
create_outbox-SameBooks e t t' u h = ground arith

pub try_create_key-SameBooks :
    (k : IdempotencyKey) (t t' : Tables) (acquired : Bool)
    → try_create_key k t ≡ some (acquired, t')
    → SameBooks t t'
unfolding try_create_key
try_create_key-SameBooks k t t' acquired h = ground arith

-- A cancelled order lets go of all its items.
pub cancel-Takes :
    (p now user_id id rows : ℕ) (t t' : Tables) (o : Order)
    → find (has_id id) t.orders ≡ some o
    → (rows == 0) ≡ false
    → patch_order_status now user_id id pending cancelled t ≡ some (rows, t')
    → Takes p t t' (in_items p o.items) 0
unfolding patch_order_status
cancel-Takes p now user_id id rows t t' o found changed e =
    ground (arith, sum_by-modify (taken_by p) (has_id id) (stamp cancelled now) t.orders o found)

-- The row with this id is of this user and has this status.
abbrev pub matches : ℕ → ℕ → OrderStatus → List Order → Bool
matches user_id id from os = elim (find (has_id id) os) [
  | none ↦ false
  | some o ↦ o.user_id == user_id && same_status o.status from
]

pub patch_order_status_none :
    (now user_id id : ℕ) (from to : OrderStatus) (rows : ℕ) (t t' : Tables)
    → (rows == 0) ≡ true
    → patch_order_status now user_id id from to t ≡ some (rows, t')
    → (t' ≡ t) × (matches user_id id from t.orders ≡ false)
unfolding patch_order_status
patch_order_status_none now user_id id from to rows t t' zero_rows e =
    elim (Option-cases (find (has_id id) t.orders)) [
      | inl missing ↦ (ground arith, ground arith)
      | inr (o, found) ↦ (ground arith, ground arith)
    ]

pub patch_order_status_found :
    (now user_id id : ℕ) (from to : OrderStatus) (rows : ℕ) (t t' : Tables)
    → (rows == 0) ≡ false
    → patch_order_status now user_id id from to t ≡ some (rows, t')
    → (o : Order) × (find (has_id id) t.orders ≡ some o)
      × (same_status o.status from ≡ true)
      × (t' ≡ record t { orders = modify (has_id id) (stamp to now) t.orders })
unfolding patch_order_status
patch_order_status_found now user_id id from to rows t t' changed e =
    elim (Option-cases (find (has_id id) t.orders)) [
      | inl missing ↦ absurd (ground arith)
      | inr (o, found) ↦ (o, found, ground arith, ground arith)
    ]

-- An order that is paid for, or that is finished, takes what it took.
pub patch_order_status-Takes :
    (p now user_id id rows : ℕ) (from to : OrderStatus) (t t' : Tables)
    → (from ≡ pending) × (to ≡ paid) ⊎ (from ≡ paid) × (to ≡ finished)
    → patch_order_status now user_id id from to t ≡ some (rows, t')
    → Takes p t t' 0 0
unfolding patch_order_status
patch_order_status-Takes p now user_id id rows from to t t' h e =
    elim (Option-cases (find (has_id id) t.orders)) [
      | inl missing ↦ ground arith
      | inr (o, found) ↦
          ground (arith, sum_by-modify (taken_by p) (has_id id) (stamp to now) t.orders o found)
    ]

pub create_order_row_rows :
    (o : Order) (id : Int64) (t t' : Tables)
    → create_order_row o t ≡ some (id, t')
    → (t'.inventories ≡ t.inventories)
      × (t'.logs ≡ t.logs)
      × (t'.orders ≡ record o { id = id } ∷ t.orders)
unfolding create_order_row
create_order_row_rows o id t t' e = ground arith

pub create_stock_log_rows :
    (l : StockLog) (t t' : Tables) (u : Unit {0})
    → create_stock_log l t ≡ some (u, t')
    → t' ≡ record t { logs = l ∷ t.logs }
unfolding create_stock_log
create_stock_log_rows l t t' u e = ground arith
