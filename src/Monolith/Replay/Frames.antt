-- ===== src/Monolith/Replay/Frames.antt =====
-- The statements of internal/dao that leave the idempotency keys alone.
use Prim.Native.String.{String}
use go_order_management_syst.Prelude.{
  ℕ, ◌≡◌, ◌∙◌, inl, inr, List, [], ◌∷◌, some, Option-cases, arith,
}
use go_order_management_syst.Prelude.Int64.{Int64, wrapping_add}
use go_order_management_syst.Database.{Db}
use go_order_management_syst.Database.Ensures.{
  Ensures, Ensures-bind, Ensures-statement, Ensures-query, Ensures-guard, Ensures-or_raise,
  Ensures-pure,
}
use go_order_management_syst.Database.Table.{find}
use go_order_management_syst.Monolith.Store.{
  Order, OrderItem, StockLog, Tables, IdempotencyKey, TimeoutOutbox, being_created, has_key,
  of_product, deduct_inventory, create_order_item, create_stock_log, create_order_row,
  patch_order_total, create_outbox, Product,
}
use go_order_management_syst.Monolith.Orders.Hash.{ItemRequest}
use go_order_management_syst.Monolith.Orders.Create.{log_stock, take_item, order_line, order_lines}

-- The row of the key, while its order is being created.
abbrev pub IsOpen : Int64 → String → String → Tables → Type 0
IsOpen user_id key hash t =
    (k : IdempotencyKey) × (find (has_key user_id key) t.keys ≡ some k)
    × (k.request_hash ≡ hash)
    × (k.status ≡ being_created)

-- The statements of the loop over the items do not touch the keys.
deduct_inventory_keys :
    (product_id q rows : Int64) (t t' : Tables)
    → deduct_inventory product_id q t ≡ some (rows, t')
    → t'.keys ≡ t.keys
unfolding deduct_inventory
deduct_inventory_keys product_id q rows t t' e =
    elim (Option-cases (find (of_product product_id) t.inventories)) [
      | inl missing ↦ ground arith
      | inr (i, found) ↦ ground arith
    ]

create_order_item_keys :
    (id : Int64) (item : OrderItem) (t t' : Tables) (u : Unit {0})
    → create_order_item id item t ≡ some (u, t')
    → t'.keys ≡ t.keys
unfolding create_order_item
create_order_item_keys id item t t' u e = ground arith

create_stock_log_keys :
    (l : StockLog) (t t' : Tables) (u : Unit {0})
    → create_stock_log l t ≡ some (u, t')
    → t'.keys ≡ t.keys
unfolding create_stock_log
create_stock_log_keys l t t' u e = ground arith

pub create_order_row_keys :
    (o : Order) (id : Int64) (t t' : Tables)
    → create_order_row o t ≡ some (id, t')
    → (t'.keys ≡ t.keys) × (id ≡ t.next_order)
unfolding create_order_row
create_order_row_keys o id t t' e = ground arith

pub patch_order_total_keys :
    (user_id id total : Int64) (t t' : Tables) (u : Unit {0})
    → patch_order_total user_id id total t ≡ some (u, t')
    → t'.keys ≡ t.keys
unfolding patch_order_total
patch_order_total_keys user_id id total t t' u e = ground arith

pub create_outbox_keys :
    (e : TimeoutOutbox) (t t' : Tables) (u : Unit {0})
    → create_outbox e t ≡ some (u, t')
    → t'.keys ≡ t.keys
unfolding create_outbox
create_outbox_keys e t t' u h = ground arith

take_item_keys :
    (ks : List IdempotencyKey) (id : Int64) (item : ItemRequest) (product : Product) (before : ℕ)
    (db : Db Tables)
    → db.tables.keys ≡ ks
    → Ensures (λ _ t. t.keys ≡ ks) (take_item id item product before db)
unfolding take_item log_stock
take_item_keys ks id item product before db h =
    Ensures-bind {Q = λ _ t. t.keys ≡ ks}
      (Ensures-statement _ _ db
        λ rows t e. deduct_inventory_keys item.product_id item.quantity rows db.tables t e ∙ h)
      λ rows db1 h1.
        Ensures-bind {Q = λ _ t. t.keys ≡ ks} (Ensures-guard _ _ db1 λ _. h1) λ _ db2 h2.
          Ensures-bind {Q = λ _ t. t.keys ≡ ks}
            (Ensures-statement _ _ db2 λ u t e. create_order_item_keys id _ db2.tables t u e ∙ h2)
            λ _ db3 h3.
              Ensures-bind {Q = λ _ t. t.keys ≡ ks}
                (Ensures-statement _ _ db3 λ u t e. create_stock_log_keys _ db3.tables t u e ∙ h3)
                λ _ db4 h4. Ensures-pure _ db4 h4

order_line_keys :
    (ks : List IdempotencyKey) (id : Int64) (item : ItemRequest) (db : Db Tables)
    → db.tables.keys ≡ ks
    → Ensures (λ _ t. t.keys ≡ ks) (order_line id item db)
unfolding order_line
order_line_keys ks id item db h =
    Ensures-bind {Q = λ _ t. t.keys ≡ ks} (Ensures-query _ _ db h) λ found db1 h1.
      Ensures-bind {Q = λ _ t. t.keys ≡ ks} (Ensures-or_raise _ _ db1 λ _ _. h1) λ product db2 h2.
        Ensures-bind {Q = λ _ t. t.keys ≡ ks} (Ensures-guard _ _ db2 λ _. h2) λ _ db3 h3.
          Ensures-bind {Q = λ _ t. t.keys ≡ ks} (Ensures-query _ _ db3 h3) λ stocked db4 h4.
            Ensures-bind {Q = λ _ t. t.keys ≡ ks} (Ensures-or_raise _ _ db4 λ _ _. h4)
              λ inventory db5 h5.
                Ensures-bind {Q = λ _ t. t.keys ≡ ks} (Ensures-guard _ _ db5 λ _. h5)
                  λ _ db6 h6. take_item_keys ks id item product inventory.stock_quantity db6 h6

pub order_lines_keys :
    (ks : List IdempotencyKey) (id total : Int64) (items : List ItemRequest) (db : Db Tables)
    → db.tables.keys ≡ ks
    → Ensures (λ _ t. t.keys ≡ ks) (order_lines id total items db)
unfolding order_lines
order_lines_keys ks id total [] db h = Ensures-pure total db h
order_lines_keys ks id total (item ∷ items) db h =
    Ensures-bind (order_line_keys ks id item db h)
      λ subtotal db1 h1. order_lines_keys ks id (wrapping_add total subtotal) items db1 h1
