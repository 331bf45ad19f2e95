-- ===== src/Inventory/Accounts/Stock.antt =====
-- `Init` and `Add` of internal/inventorysvc/inventory.go keep the books balanced.
use mathlib.Core.Option.{some-injective}
use go_order_management_syst.Prelude.{
  ℕ, ◌≡◌, refl, ap, sym, subst, ◌∙◌, Bool, true, false, ◌&&◌, ◌∷◌, some, arith, sum_by,
}
use go_order_management_syst.Prelude.Int64.{Int64, is_positive}
use go_order_management_syst.Database.{Db}
use go_order_management_syst.Database.Ensures.{
  Atomic, Ensures-bind, Ensures-statement, Ensures-query, Ensures-or_raise, Atomic-transaction,
  Atomic-guard, Atomic-then,
}
use go_order_management_syst.Database.Table.{find}
use go_order_management_syst.Inventory.Store.{
  Inventory, Tables, initialize, add, of_product, create_inventory, create_log, update_add,
}
use go_order_management_syst.Inventory.Service.{
  log_of, new_inventory, init_body, init_inventory, add_body, add_inventory,
}
use go_order_management_syst.Inventory.Accounts.{held_by, AllItemsPositive, Balanced}
use go_order_management_syst.Inventory.Accounts.Statements.{update_add-Moved}

create_inventory_rows :
    (product_id quantity : Int64) (t t1 : Tables) (u : Unit {0})
    → create_inventory (new_inventory product_id quantity) t ≡ some (u, t1)
    → t1 ≡ record t { inventories = new_inventory product_id quantity ∷ t.inventories }
unfolding create_inventory
create_inventory_rows product_id quantity t t1 u e = ground arith

both_true : (a b : Bool) → (a && b) ≡ true → b ≡ true
both_true true b h = h
both_true false b h = cc

initialized-Balanced :
    (product_id quantity : Int64) (t t1 t2 : Tables) (u v : Unit {0})
    → Balanced t
    → create_inventory (new_inventory product_id quantity) t ≡ some (u, t1)
    → create_log (log_of product_id initialize quantity "") t1 ≡ some (v, t2)
    → Balanced t2
unfolding create_inventory
initialized-Balanced product_id quantity t t1 t2 u v b e1 e2 =
    subst Balanced (ap (λ x. x.1) (some-injective _ _ e2)) (record {
      reserved_held = λ p. ground (arith, b.reserved_held p);
      available_logged = λ p. ground (arith, b.available_logged p);
      house_logged = λ p. ground (arith, b.house_logged p);
      items_positive =
          subst (λ (x : Tables). AllItemsPositive x.reservations)
            (sym (create_inventory_rows product_id quantity t t1 u e1)) b.items_positive;
    })

-- `Init` leaves the tables as they were when it returns an error, and otherwise keeps the books
-- balanced.
pub init_inventory-Balanced :
    (product_id quantity : Int64) (db : Db Tables)
    → Balanced db.tables
    → Atomic db.tables (λ _ t. Balanced t) (init_inventory product_id quantity db)
unfolding init_inventory init_body
init_inventory-Balanced product_id quantity db b =
    Atomic-guard (λ _ t. Balanced t) _ _ _ db
      λ _.
        Atomic-then (λ _ t. Balanced t) (λ _ t. Balanced t) (new_inventory product_id quantity)
          db.tables _
          (Atomic-transaction _ (init_body product_id quantity) db (
            Ensures-bind
              {Q = λ u t.
                create_inventory (new_inventory product_id quantity) db.tables ≡ some (u, t)}
              (Ensures-statement _ _ db λ u t e. e)
              λ u db1 e1. Ensures-statement _ _ db1 λ v t e2.
                initialized-Balanced product_id quantity db.tables db1.tables t u v b e1 e2))
          (λ a t h. h)

added-Balanced :
    (product_id quantity : Int64) (n : ℕ) (t t1 t2 : Tables) (i : Inventory) (v : Unit {0})
    → Balanced t
    → is_positive quantity ≡ true
    → find (of_product product_id) t.inventories ≡ some i
    → update_add product_id quantity t ≡ some (n, t1)
    → create_log (log_of product_id add quantity "") t1 ≡ some (v, t2)
    → Balanced t2
added-Balanced product_id quantity n t t1 t2 i v b pos found e1 e2 =
    let moved = λ (p : Int64). update_add-Moved p product_id quantity n t t1 i pos found e1 in
    let same = λ (p : Int64). ap (sum_by (held_by p)) (moved p).same_reservations in
    subst Balanced (ap (λ x. x.1) (some-injective _ _ e2)) (record {
      reserved_held = λ p. ground (arith, moved p, same p, b.reserved_held p);
      available_logged = λ p. ground (arith, moved p, b.available_logged p);
      house_logged = λ p. ground (arith, moved p, b.house_logged p);
      items_positive = subst AllItemsPositive (sym (moved 0).same_reservations) b.items_positive;
    })

-- `Add` leaves the tables as they were when it returns an error, and otherwise keeps the books
-- balanced.
pub add_inventory-Balanced :
    (product_id quantity : Int64) (db : Db Tables)
    → Balanced db.tables
    → Atomic db.tables (λ _ t. Balanced t) (add_inventory product_id quantity db)
unfolding add_inventory add_body
add_inventory-Balanced product_id quantity db b =
    Atomic-guard (λ _ t. Balanced t) _ _ _ db
      λ valid. Atomic-transaction _ (add_body product_id quantity) db (
        Ensures-bind {Q = λ o t. (o ≡ find (of_product product_id) t.inventories) × Balanced t}
          (Ensures-query _ _ db (refl, b))
          λ found db1 h1.
            Ensures-bind
              {Q = λ i t. (find (of_product product_id) t.inventories ≡ some i) × Balanced t}
              (Ensures-or_raise _ _ db1 λ i e. (sym h1.0 ∙ e, h1.1))
              λ i db2 h2.
                Ensures-bind {Q = λ n t. update_add product_id quantity db2.tables ≡ some (n, t)}
                  (Ensures-statement _ _ db2 λ n t e. e)
                  λ n db3 e3.
                    Ensures-bind {Q = λ _ t. Balanced t}
                      (Ensures-statement _ _ db3 λ v t e4.
                        added-Balanced product_id quantity n db2.tables db3.tables t i v h2.1
                          (both_true (is_positive product_id) (is_positive quantity) valid) h2.0 e3
                          e4)
                      λ _ db4 h4.
                        Ensures-bind {Q = λ _ t. Balanced t} (Ensures-query _ _ db4 h4)
                          λ _ db5 h5. Ensures-or_raise _ _ db5 λ _ _. h5)
