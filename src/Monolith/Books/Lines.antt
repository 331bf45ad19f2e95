-- ===== src/Monolith/Books/Lines.antt =====
-- The loop of `CreateOrder` of internal/service/order_service.go over the items, and the books.
use go_order_management_syst.Prelude.{
  ℕ, ◌≡◌, refl, ap, sym, subst, ◌∙◌, true, false, not, List, [], ◌∷◌, some, arith, sum_by, ◌==◌,
}
use go_order_management_syst.Prelude.Int64.{Int64, is_positive, wrapping_add}
use go_order_management_syst.Database.{Db}
use go_order_management_syst.Database.Ensures.{
  Ensures, Ensures-bind, Ensures-statement, Ensures-query, Ensures-guard, Ensures-or_raise,
  Ensures-pure,
}
use go_order_management_syst.Database.Table.{find, find-modify, find_holds}
use go_order_management_syst.Monolith.Store.{
  OrderItem, Order, pending, Tables, has_id, has_product_id, add_item, deduct_inventory,
  create_order_item, create_stock_log, Product,
}
use go_order_management_syst.Monolith.Orders.Hash.{ItemRequest}
use go_order_management_syst.Monolith.Orders.Create.{
  new_item, deduct_log, log_stock, take_item, order_line, order_lines,
}
use go_order_management_syst.Monolith.Books.{of_p, taken_by, Balanced}
use go_order_management_syst.Monolith.Books.Statements.{
  Moved, Takes, deduct_inventory-Moved, create_order_item-Takes, create_order_item_rows,
  create_stock_log_rows,
}

-- Balanced books, and the order with this id is there, pending and of this user.
abbrev pub IsCreating : Int64 → Int64 → Tables → Type 0
IsCreating user_id id t =
    Balanced t
    × ((o : Order) × (find (has_id id) t.orders ≡ some o)
        × (o.status ≡ pending)
        × (o.user_id ≡ user_id))

is_changed : (rows : ℕ) → not (rows == 0) ≡ true → (rows == 0) ≡ false
is_changed rows h = ground arith

-- The books after one item: the stock has moved, then the order, then the log.
ordered-Balanced :
    (id product_id before : ℕ) (item : OrderItem) (t t1 t2 : Tables)
    → item.product_id ≡ product_id
    → is_positive item.quantity ≡ true
    → ((p : Int64) → Moved p t t1 (of_p p product_id item.quantity) 0)
    → ((p : Int64) → Takes p t1 t2 0 (of_p p item.product_id item.quantity))
    → Balanced t
    → Balanced (record t2 { logs = deduct_log id item.product_id before item.quantity ∷ t2.logs })
ordered-Balanced id product_id before item t t1 t2 same pos moved takes b = record {
  stock_logged = λ p. ground (arith, moved p, takes p, b.stock_logged p);
  supplied_there = λ p.
      ground (
        arith,
        moved p,
        takes p,
        ap (sum_by (taken_by p)) (moved p).same_orders,
        b.supplied_there p,
      );
}

ordered-IsCreating :
    (user_id id product_id before rows : ℕ) (item : OrderItem) (t t1 t2 t3 : Tables)
    (u v : Unit {0})
    → IsCreating user_id id t
    → item.product_id ≡ product_id
    → (rows == 0) ≡ false
    → deduct_inventory product_id item.quantity t ≡ some (rows, t1)
    → create_order_item id item t1 ≡ some (u, t2)
    → create_stock_log (deduct_log id item.product_id before item.quantity) t2 ≡ some (v, t3)
    → IsCreating user_id id t3
ordered-IsCreating user_id id product_id before rows item t t1 t2 t3 u v (b, (o, found, is, own))
      same changed e1 e2 e3 =
    let (pos, orders2) = create_order_item_rows id item t1 t2 u e2 in
    let moved =
      λ (p : Int64). deduct_inventory-Moved p product_id item.quantity rows t t1 pos changed e1 in
    let found1 : find (has_id id) t1.orders ≡ some o =
      ap (find (has_id id)) (moved 0).same_orders ∙ found in
    let takes = λ (p : Int64). create_order_item-Takes p id item t1 t2 o u found1 is e2 in
    let found2 : find (has_id id) t2.orders ≡ some (add_item item o) =
      ap (find (has_id id)) orders2
      ∙ find-modify (has_id id) (add_item item) t1.orders o found1
          (find_holds (has_id id) t1.orders o found1) in
    subst (IsCreating user_id id)
      (sym (create_stock_log_rows (deduct_log id item.product_id before item.quantity) t2 t3 v e3))
      (
        ordered-Balanced id product_id before item t t1 t2 same pos moved takes b,
        (add_item item o, found2, is, own),
      )

same_product :
    (id : Int64) (ps : List Product) (p : Product)
    → find (has_product_id id) ps ≡ some p
    → p.id ≡ id
same_product id ps p e = ground (arith, find_holds (has_product_id id) ps p e)

take_item-IsCreating :
    (user_id id : Int64) (item : ItemRequest) (product : Product) (before : ℕ) (db : Db Tables)
    → product.id ≡ item.product_id
    → IsCreating user_id id db.tables
    → Ensures (λ _ t. IsCreating user_id id t) (take_item id item product before db)
unfolding take_item log_stock
take_item-IsCreating user_id id item product before db same h =
    Ensures-bind
      {Q = λ rows t. deduct_inventory item.product_id item.quantity db.tables ≡ some (rows, t)}
      (Ensures-statement _ _ db λ rows t e. e)
      λ rows db1 e1.
        Ensures-bind
          {Q = λ _ t.
            (deduct_inventory item.product_id item.quantity db.tables ≡ some (rows, t))
            × ((rows == 0) ≡ false)}
          (Ensures-guard _ _ db1 λ changed. (e1, is_changed rows changed))
          λ _ db2 h2.
            Ensures-bind
              {Q = λ u t.
                create_order_item id (new_item product item.quantity) db2.tables ≡ some (u, t)}
              (Ensures-statement _ _ db2 λ u t e. e)
              λ u db3 e3.
                Ensures-bind {Q = λ _ t. IsCreating user_id id t}
                  (Ensures-statement _ _ db3 λ v t e4.
                    ordered-IsCreating user_id id item.product_id before rows
                      (new_item product item.quantity) db.tables db2.tables db3.tables t u v h same
                      h2.1 h2.0 e3 e4)
                  λ _ db4 h4. Ensures-pure _ db4 h4

order_line-IsCreating :
    (user_id id : Int64) (item : ItemRequest) (db : Db Tables)
    → IsCreating user_id id db.tables
    → Ensures (λ _ t. IsCreating user_id id t) (order_line id item db)
unfolding order_line
order_line-IsCreating user_id id item db h =
    Ensures-bind
      {Q = λ o t. (o ≡ find (has_product_id item.product_id) t.products) × IsCreating user_id id t}
      (Ensures-query _ _ db (refl, h))
      λ found db1 h1.
        Ensures-bind {Q = λ (p : Product) t. (p.id ≡ item.product_id) × IsCreating user_id id t}
          (Ensures-or_raise _ _ db1
            λ p e. (same_product item.product_id db1.tables.products p (sym h1.0 ∙ e), h1.1))
          λ product db2 h2.
            Ensures-bind {Q = λ _ t. IsCreating user_id id t} (Ensures-guard _ _ db2 λ _. h2.1)
              λ _ db3 h3.
                Ensures-bind {Q = λ _ t. IsCreating user_id id t} (Ensures-query _ _ db3 h3)
                  λ stocked db4 h4.
                    Ensures-bind {Q = λ _ t. IsCreating user_id id t}
                      (Ensures-or_raise _ _ db4 λ _ _. h4)
                      λ inventory db5 h5.
                        Ensures-bind {Q = λ _ t. IsCreating user_id id t}
                          (Ensures-guard _ _ db5 λ _. h5)
                          λ _ db6 h6.
                            take_item-IsCreating user_id id item product inventory.stock_quantity
                              db6 h2.0 h6

pub order_lines-IsCreating :
    (user_id id total : Int64) (items : List ItemRequest) (db : Db Tables)
    → IsCreating user_id id db.tables
    → Ensures (λ _ t. IsCreating user_id id t) (order_lines id total items db)
unfolding order_lines
order_lines-IsCreating user_id id total [] db h = Ensures-pure total db h
order_lines-IsCreating user_id id total (item ∷ items) db h =
    Ensures-bind (order_line-IsCreating user_id id item db h) λ subtotal db1 h1.
      order_lines-IsCreating user_id id (wrapping_add total subtotal) items db1 h1
