-- ===== src/Monolith/Books/Cancel.antt =====
-- `CancelOrder` of internal/service/order_service.go keeps the books balanced.
use go_order_management_syst.Prelude.{
  ℕ, ◌≡◌, refl, ap, sym, subst, ◌∙◌, inl, inr, ◌⊎◌, Bool, true, false, not, List, [], ◌∷◌, some,
  arith, sum_by, Bool-cases, ◌==◌, Option-cases,
}
use go_order_management_syst.Prelude.Int64.{Int64, wrapping_add}
use go_order_management_syst.Database.{Db}
use go_order_management_syst.Database.Ensures.{
  All, Ensures, Atomic, Ensures-bind, Ensures-statement, Ensures-query, Ensures-guard,
  Ensures-or_raise, Ensures-for_each, Ensures-pure, Atomic-transaction, Ensures-mono,
}
use go_order_management_syst.Database.Table.{find, find-modify, find_holds}
use go_order_management_syst.Monolith.Store.{
  OrderItem, Order, OrderStatus, pending, paid, finished, cancelled, Tables, of_product, has_id,
  stamp, set_stock, create_stock_log, patch_order_status, find_order,
}
use go_order_management_syst.Monolith.Orders.Lifecycle.{
  rollback_log, restore_item, restore_items, cancel_pending_order, cancel_found, cancel_body,
  cancel_order,
}
use go_order_management_syst.Monolith.Books.{of_p, taken_by, Owing, Balanced}
use go_order_management_syst.Monolith.Books.Statements.{
  Moved, set_stock-Moved, cancel-Takes, patch_order_status_none, patch_order_status_found, matches,
  create_stock_log_rows,
}

-- The books with these items to be put back, and these orders.
abbrev OwingOf : List Order → List OrderItem → Tables → Type 0
OwingOf os left t = Owing left t × (t.orders ≡ os)

-- The order with this id is there and cancelled.
abbrev pub IsCancelled : Int64 → Tables → Type 0
IsCancelled id t = (o : Order) × (find (has_id id) t.orders ≡ some o) × (o.status ≡ cancelled)

restored-Owing :
    (order_id before rows : ℕ) (item : OrderItem) (xs : List OrderItem) (t t1 t2 : Tables)
    (u : Unit {0}) (os : List Order)
    → OwingOf os (item ∷ xs) t
    → ((p : Int64) → Moved p t t1 0 (of_p p item.product_id item.quantity))
    → create_stock_log (rollback_log order_id item.product_id before item.quantity) t1
      ≡ some (u, t2)
    → OwingOf os xs t2
restored-Owing order_id before rows item xs t t1 t2 u os (b, same) moved e =
    subst (OwingOf os xs)
      (sym (
        create_stock_log_rows (rollback_log order_id item.product_id before item.quantity) t1 t2 u
          e))
      (
        record {
          stock_logged = λ p. ground (arith, moved p, b.stock_logged p);
          supplied_there = λ p.
              ground (
                arith,
                moved p,
                b.supplied_there p,
                ap (sum_by (taken_by p)) (moved p).same_orders,
              );
        },
        (moved 0).same_orders ∙ same,
      )

-- What is known between the statements of one round.
restore_item-Owing :
    (order_id : Int64) (os : List Order) (item : OrderItem) (xs : List OrderItem) (db : Db Tables)
    → OwingOf os (item ∷ xs) db.tables
    → Ensures (λ _ t. OwingOf os xs t) (restore_item order_id item db)
unfolding restore_item
restore_item-Owing order_id os item xs db h =
    Ensures-bind
      {Q = λ o t. (o ≡ find (of_product item.product_id) t.inventories) × OwingOf os (item ∷ xs) t}
      (Ensures-query _ _ db (refl, h))
      λ found db1 h1.
        Ensures-bind
          {Q = λ i t.
            (find (of_product item.product_id) t.inventories ≡ some i) × OwingOf os (item ∷ xs) t}
          (Ensures-or_raise _ _ db1 λ i e. (sym h1.0 ∙ e, h1.1))
          λ i db2 h2.
            Ensures-bind
              {Q = λ rows t.
                set_stock item.product_id (wrapping_add i.stock_quantity item.quantity) db2.tables
                ≡ some (rows, t)}
              (Ensures-statement _ _ db2 λ rows t e. e)
              λ rows db3 e3.
                Ensures-bind
                  {Q = λ _ t.
                    (p : Int64) → Moved p db2.tables t 0 (of_p p item.product_id item.quantity)}
                  (Ensures-guard _ _ db3 λ changed p.
                    set_stock-Moved p item.product_id item.quantity rows db2.tables db3.tables i
                      h2.0 (is_changed rows changed) e3)
                  λ _ db4 moved. Ensures-statement _ _ db4 λ u t e5.
                    restored-Owing order_id i.stock_quantity rows item xs db2.tables db4.tables t u
                      os h2.1 moved e5
  where
    is_changed : (rows : ℕ) → not (rows == 0) ≡ true → (rows == 0) ≡ false
    is_changed rows h = ground arith

pub trivial : (xs : List OrderItem) → All (λ _. Unit {0}) xs
trivial [] = tt
trivial (x ∷ xs) = (tt, trivial xs)

restore_items-Balanced :
    (order_id : Int64) (o : Order) (db : Db Tables)
    → find (has_id order_id) db.tables.orders ≡ some o
    → o.status ≡ cancelled
    → Owing o.items db.tables
    → Ensures
        (λ done t. (done ≡ true) × Balanced t × IsCancelled order_id t)
        (restore_items order_id db)
unfolding restore_items
restore_items-Balanced order_id o db found gone h =
    Ensures-bind {Q = λ items t. OwingOf db.tables.orders items t}
      (Ensures-query _ _ db (rw found (h, refl)))
      λ items db1 h1.
        Ensures-bind {Q = λ _ t. OwingOf db.tables.orders [] t}
          (Ensures-for_each (λ _. Unit {0}) (OwingOf db.tables.orders) (restore_item order_id)
            (λ x xs db' _ i. restore_item-Owing order_id db.tables.orders x xs db' i) items db1
            (trivial items) h1)
          λ _ db2 h2.
            Ensures-pure _ db2 (refl, h2.0, (o, ap (find (has_id order_id)) h2.1 ∙ found, gone))

cancelled-Owing :
    (now user_id id rows : ℕ) (t t' : Tables) (o : Order)
    → Balanced t
    → find (has_id id) t.orders ≡ some o
    → (rows == 0) ≡ false
    → patch_order_status now user_id id pending cancelled t ≡ some (rows, t')
    → Owing o.items t'
cancelled-Owing now user_id id rows t t' o b found changed e =
    let takes = λ (p : Int64). cancel-Takes p now user_id id rows t t' o found changed e in
    record {
      stock_logged = λ p. ground (arith, takes p, b.stock_logged p);
      supplied_there = λ p. ground (arith, takes p, b.supplied_there p);
    }

-- The row of the order can be cancelled.
abbrev pub can_cancel : Order → Tables → Bool
can_cancel order t = matches order.user_id order.id pending t.orders

pub cancel_pending_order-Balanced :
    (now : ℕ) (order : Order) (db : Db Tables)
    → Balanced db.tables
    → Ensures
        (λ done t.
          Balanced t
          × ((done ≡ true) × IsCancelled order.id t
              ⊎ (done ≡ false) × (can_cancel order db.tables ≡ false)))
        (cancel_pending_order now order db)
unfolding cancel_pending_order
cancel_pending_order-Balanced now order db b =
    Ensures-bind
      {Q = λ rows t.
        patch_order_status now order.user_id order.id pending cancelled db.tables ≡ some (rows, t)}
      (Ensures-statement _ _ db λ rows t e. e)
      λ rows db1 e1. elim (Bool-cases (rows == 0)) [
        | inl none_changed ↦ rw none_changed (
            let (same, cannot) =
              patch_order_status_none now order.user_id order.id pending cancelled rows db.tables
                db1.tables none_changed e1 in
            Ensures-pure false db1 (subst Balanced (sym same) b, inr (refl, cannot)))
        | inr changed ↦ rw changed (
            let (o, found, was_pending, rows_now) =
              patch_order_status_found now order.user_id order.id pending cancelled rows db.tables
                db1.tables changed e1 in
            Ensures-mono
              (restore_items-Balanced order.id (stamp cancelled now o) db1
                (ap (λ (t : Tables). find (has_id order.id) t.orders) rows_now
                  ∙ find-modify (has_id order.id) (stamp cancelled now) db.tables.orders o found
                      (find_holds (has_id order.id) db.tables.orders o found))
                refl
                (cancelled-Owing now order.user_id order.id rows db.tables db1.tables o b found
                  changed e1))
              λ done t h. (h.1, inl (h.0, h.2)))
      ]

find_order_row :
    (user_id id : Int64) (t : Tables) (o : Order)
    → find_order user_id id t ≡ some o
    → find (has_id id) t.orders ≡ some o
find_order_row user_id id t o e = ground (arith, Option-cases (find (has_id id) t.orders))

pub has_id_eq :
    (id : Int64) (os : List Order) (o : Order) → find (has_id id) os ≡ some o → o.id ≡ id
has_id_eq id os o e = ground (arith, find_holds (has_id id) os o e)

cancel_found-Balanced :
    (now order_id : ℕ) (order : Order) (status : OrderStatus) (db : Db Tables)
    → Balanced db.tables
    → find (has_id order_id) db.tables.orders ≡ some order
    → order.status ≡ status
    → Ensures (λ _ t. Balanced t × IsCancelled order_id t) (cancel_found now order status db)
unfolding cancel_found
cancel_found-Balanced now order_id order cancelled db b found is =
    Ensures-pure tt db (b, (order, found, is))
cancel_found-Balanced now order_id order paid db b found is = record { success = tt }
cancel_found-Balanced now order_id order finished db b found is = record { success = tt }
cancel_found-Balanced now order_id order pending db b found is =
    Ensures-bind (cancel_pending_order-Balanced now order db b) λ done db1 h.
      Ensures-guard done _ db1 λ is_done. (
        h.0,
        subst (λ id. IsCancelled id db1.tables) (has_id_eq order_id db.tables.orders order found)
            (done_cancelled done db1.tables is_done h.1),
      )
  where
    done_cancelled :
        (done : Bool) (t : Tables)
        → done ≡ true
        → (done ≡ true) × IsCancelled order.id t
          ⊎ (done ≡ false) × (can_cancel order db.tables ≡ false)
        → IsCancelled order.id t
    done_cancelled done t e (inl (_, c)) = c
    done_cancelled done t e (inr (undone, _)) = cc

-- `CancelOrder` leaves the tables as they were when it returns an error, whatever statements fail.
-- Otherwise the books stay balanced and the order is there and cancelled.
pub cancel_order-Balanced :
    (now user_id order_id : ℕ) (db : Db Tables)
    → Balanced db.tables
    → Atomic db.tables
        (λ _ t. Balanced t × IsCancelled order_id t)
        (cancel_order now user_id order_id db)
unfolding cancel_order cancel_body
cancel_order-Balanced now user_id order_id db b =
    Atomic-transaction _ (cancel_body now user_id order_id) db (
      Ensures-bind {Q = λ o t. (o ≡ find_order user_id order_id t) × Balanced t}
        (Ensures-query _ _ db (refl, b))
        λ found db1 h1.
          Ensures-bind {Q = λ o t. (find (has_id order_id) t.orders ≡ some o) × Balanced t}
            (Ensures-or_raise _ _ db1
              λ o e. (find_order_row user_id order_id db1.tables o (sym h1.0 ∙ e), h1.1))
            λ o db2 h2. cancel_found-Balanced now order_id o o.status db2 h2.1 h2.0 refl)
