-- ===== src/Monolith/Books/Supply.antt =====
-- `InitInventory` and `AddInventory` of internal/service/inventory_service.go keep the books balanced.
use go_order_management_syst.Prelude.{
  ℕ, ◌≡◌, refl, ap, sym, subst, ◌∙◌, ◌∷◌, some, none, Option, arith, sum_by,
}
use go_order_management_syst.Prelude.Int64.{wrapping_add}
use go_order_management_syst.Database.{Db}
use go_order_management_syst.Database.Ensures.{
  Ensures, Atomic, Ensures-bind, Ensures-statement, Ensures-query, Ensures-guard, Ensures-or_raise,
  Atomic-transaction, Atomic-guard,
}
use go_order_management_syst.Database.Outcome.{
  Outcome, Outcome-bind, Outcome-statement, Outcome-query, Outcome-guard, Outcome-or_raise,
  Outcome-raise, Outcome-transaction, Outcome-mono,
}
use go_order_management_syst.Database.Table.{find}
use go_order_management_syst.Monolith.Store.{
  Inventory, Tables, biz_init, biz_manual_add, of_product, create_inventory, create_stock_log,
  set_stock,
}
use go_order_management_syst.Monolith.Orders.Create.{log_stock}
use go_order_management_syst.Monolith.Stock.{
  supply_log, init_body, init_product, init_inventory, add_body, add_inventory,
}
use go_order_management_syst.Monolith.Books.{of_p, taken_by, Balanced}
use go_order_management_syst.Monolith.Books.Statements.{
  Moved, set_stock-Moved, create_stock_log_rows,
}

create_inventory_rows :
    (i : Inventory) (t t' : Tables) (u : Unit {0})
    → create_inventory i t ≡ some (u, t')
    → t' ≡ record t { inventories = i ∷ t.inventories }
unfolding create_inventory
create_inventory_rows i t t' u e = ground arith

initialized-Balanced :
    (product_id stock : ℕ) (t : Tables)
    → Balanced t
    → Balanced (record t {
      inventories = record { product_id = product_id; stock_quantity = stock } ∷ t.inventories;
      logs = supply_log biz_init product_id 0 stock stock ∷ t.logs;
    })
initialized-Balanced product_id stock t b = record {
  stock_logged = λ p. ground (arith, b.stock_logged p);
  supplied_there = λ p. ground (arith, b.supplied_there p);
}

init_body-Balanced :
    (product_id stock : ℕ) (db : Db Tables)
    → Balanced db.tables
    → Outcome (λ _ t. Balanced t) (λ _. Unit {0}) (init_body product_id stock db)
unfolding init_body log_stock
init_body-Balanced product_id stock db b =
    let row : Inventory = record { product_id = product_id; stock_quantity = stock } in
    Outcome-bind {Q = λ u t. create_inventory row db.tables ≡ some (u, t)}
      (Outcome-statement _ _ db tt λ u t e. e)
      λ u db1 e1. Outcome-statement _ _ db1 tt λ v t e2.
        subst Balanced
          (sym (
            create_stock_log_rows (supply_log biz_init product_id 0 stock stock) db1.tables t v e2
            ∙ ap
                (λ (x : Tables). record x {
                  logs = supply_log biz_init product_id 0 stock stock ∷ x.logs;
                })
                (create_inventory_rows row db.tables db1.tables u e1)))
          (initialized-Balanced product_id stock db.tables b)

-- A product is initialized, or the tables are as they were.
init_product-Balanced :
    (product_id stock : ℕ) (db : Db Tables)
    → Balanced db.tables
    → Outcome (λ _ t. Balanced t) (λ t. t ≡ db.tables) (init_product product_id stock db)
unfolding init_product
init_product-Balanced product_id stock db b =
    Outcome-bind {Q = λ _ t. t ≡ db.tables} (Outcome-guard _ _ db (λ _. refl) (λ _. refl))
      λ _ db1 h1.
        Outcome-bind {Q = λ _ t. t ≡ db.tables} (Outcome-query _ _ db1 h1 h1) λ found db2 h2.
          Outcome-bind {Q = λ _ t. t ≡ db.tables} (Outcome-or_raise found _ db2 h2 λ _ _. h2)
            λ product db3 h3.
              Outcome-bind {Q = λ _ t. t ≡ db.tables} (Outcome-query _ _ db3 h3 h3)
                λ initialized db4 h4.
                  Outcome-bind {Q = λ _ t. t ≡ db.tables}
                    (Outcome-guard _ _ db4 (λ _. h4) (λ _. h4))
                    λ _ db5 h5.
                      Outcome-mono
                        (Outcome-transaction _ (init_body product.id stock) db5
                          (init_body-Balanced product.id stock db5 (subst Balanced (sym h5) b)))
                        (λ _ t h. h) (λ t same. same ∙ h5)

-- `InitInventory` leaves the tables as they were when it returns an error, whatever statements fail,
-- and otherwise keeps the books balanced.
pub init_inventory-Balanced :
    (product_id : ℕ) (stock : Option ℕ) (db : Db Tables)
    → Balanced db.tables
    → Outcome (λ _ t. Balanced t) (λ t. t ≡ db.tables) (init_inventory product_id stock db)
unfolding init_inventory
init_inventory-Balanced product_id none db b = Outcome-raise _ db refl
init_inventory-Balanced product_id (some stock) db b = init_product-Balanced product_id stock db b

added-Balanced :
    (product_id before after q : ℕ) (t t1 t2 : Tables) (u : Unit {0})
    → ((p : ℕ) → Moved p t t1 0 (of_p p product_id q))
    → Balanced t
    → create_stock_log (supply_log biz_manual_add product_id before after q) t1 ≡ some (u, t2)
    → Balanced t2
added-Balanced product_id before after q t t1 t2 u moved b e =
    subst Balanced
      (sym (create_stock_log_rows (supply_log biz_manual_add product_id before after q) t1 t2 u e))
      (record {
        stock_logged = λ p. ground (arith, moved p, b.stock_logged p);
        supplied_there = λ p.
            ground
              (arith, moved p, b.supplied_there p, ap (sum_by (taken_by p)) (moved p).same_orders);
      })

add_body-Balanced :
    (product_id q : ℕ) (db : Db Tables)
    → Balanced db.tables
    → Ensures (λ _ t. Balanced t) (add_body product_id q db)
unfolding add_body log_stock
add_body-Balanced product_id q db b =
    Ensures-bind {Q = λ o t. (o ≡ find (of_product product_id) t.inventories) × Balanced t}
      (Ensures-query _ _ db (refl, b))
      λ found db1 h1.
        Ensures-bind {Q = λ i t. (find (of_product product_id) t.inventories ≡ some i) × Balanced t}
          (Ensures-or_raise _ _ db1 λ i e. (sym h1.0 ∙ e, h1.1))
          λ i db2 h2.
            Ensures-bind
              {Q = λ _ t. (find (of_product product_id) t.inventories ≡ some i) × Balanced t}
              (Ensures-query _ _ db2 h2)
              λ known db3 h3.
                Ensures-bind
                  {Q = λ _ t. (find (of_product product_id) t.inventories ≡ some i) × Balanced t}
                  (Ensures-or_raise _ _ db3 λ _ _. h3)
                  λ _ db4 h4.
                    Ensures-bind
                      {Q = λ rows t.
                        set_stock product_id (wrapping_add i.stock_quantity q) db4.tables
                        ≡ some (rows, t)}
                      (Ensures-statement _ _ db4 λ rows t e. e)
                      λ rows db5 e5.
                        Ensures-bind
                          {Q = λ _ t. (p : ℕ) → Moved p db4.tables t 0 (of_p p product_id q)}
                          (Ensures-guard _ _ db5 λ changed p.
                            set_stock-Moved p product_id q rows db4.tables db5.tables i h4.0
                              (ground (arith, changed)) e5)
                          λ _ db6 moved. Ensures-statement _ _ db6 λ u t e7.
                            added-Balanced product_id i.stock_quantity
                              (wrapping_add i.stock_quantity q) q db4.tables db6.tables t u moved
                              h4.1 e7

-- `AddInventory` leaves the tables as they were when it returns an error, whatever statements fail,
-- and otherwise keeps the books balanced, also where the sum of the quantities wraps around.
pub add_inventory-Balanced :
    (product_id q : ℕ) (db : Db Tables)
    → Balanced db.tables
    → Atomic db.tables (λ _ t. Balanced t) (add_inventory product_id q db)
unfolding add_inventory
add_inventory-Balanced product_id q db b =
    Atomic-guard (λ _ t. Balanced t) _ _ _ db
      λ _. Atomic-transaction _ (add_body product_id q) db (add_body-Balanced product_id q db b)
