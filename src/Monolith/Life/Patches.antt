-- ===== src/Monolith/Life/Patches.antt =====
-- What the statements of internal/dao on an order do to its status.
use go_order_management_syst.Prelude.{
  ℕ, ◌≡◌, refl, ap, sym, subst, ◌∙◌, inl, inr, true, List, [], ◌∷◌, some, none, Option, arith,
  Bool-cases, Option-cases, if◌then◌else◌, ◌==◌,
}
use go_order_management_syst.Database.{Db}
use go_order_management_syst.Database.Ensures.{
  Ensures, Ensures-bind, Ensures-statement, Ensures-query, Ensures-guard, Ensures-or_raise,
  Ensures-pure, Ensures-for_each,
}
use go_order_management_syst.Database.Table.{find, modify}
use go_order_management_syst.Monolith.Store.{
  Order, OrderItem, StockLog, OrderStatus, Tables, has_id, stamp, same_status, create_stock_log,
  set_stock, patch_order_status, of_product,
}
use go_order_management_syst.Monolith.Orders.Lifecycle.{restore_item, restore_items}
use go_order_management_syst.Monolith.Books.Cancel.{trivial}
use go_order_management_syst.Monolith.Books.Statements.{
  patch_order_status_none, patch_order_status_found,
}
use go_order_management_syst.Monolith.Life.{Step, stays, status_in, status_of}

abbrev restamped : OrderStatus → Option OrderStatus → Option OrderStatus
restamped to none = none
restamped to (some s) = some to

status_in-modify :
    (x id now : ℕ) (to : OrderStatus) (os : List Order)
    → status_in (find (has_id x) (modify (has_id id) (stamp to now) os)) ≡ (
        if id == x
        then restamped to (status_in (find (has_id x) os))
        else status_in (find (has_id x) os))
status_in-modify x id now to [] = ground arith
status_in-modify x id now to (o ∷ os) = ground (arith, status_in-modify x id now to os)

same_status_eq : (a b : OrderStatus) → same_status a b ≡ true → a ≡ b
same_status_eq a b h = ground arith

-- A patch that found its row, for that order and for the others.
patched-Step :
    (x id now : ℕ) (from to : OrderStatus) (os : List Order) (o : Order)
    → find (has_id id) os ≡ some o
    → o.status ≡ from
    → Step (some from) (some to)
    → Step
        (status_in (find (has_id x) os))
        (status_in (find (has_id x) (modify (has_id id) (stamp to now) os)))
patched-Step x id now from to os o found is st = elim (Bool-cases (id == x)) [
  | inl same ↦
      let e : id ≡ x = ground arith in
      let before : status_in (find (has_id x) os) ≡ some from =
        ap (λ i. status_in (find (has_id i) os)) (sym e) ∙ ap status_in found ∙ ap some is in
      let after : status_in (find (has_id x) (modify (has_id id) (stamp to now) os)) ≡ some to =
        status_in-modify x id now to os ∙ rw same (ap (restamped to) before) in
      subst (λ s. Step s (status_in (find (has_id x) (modify (has_id id) (stamp to now) os))))
        (sym before) (subst (Step (some from)) (sym after) st)
  | inr other ↦
      let after : status_in (find (has_id x) (modify (has_id id) (stamp to now) os))
          ≡ status_in (find (has_id x) os) =
        status_in-modify x id now to os ∙ rw other refl in
      subst (Step (status_in (find (has_id x) os))) (sym after)
        (stays (status_in (find (has_id x) os)))
]

pub patch-Step :
    (x now user_id id rows : ℕ) (from to : OrderStatus) (t t' : Tables)
    → Step (some from) (some to)
    → patch_order_status now user_id id from to t ≡ some (rows, t')
    → Step (status_of x t) (status_of x t')
patch-Step x now user_id id rows from to t t' st e = elim (Bool-cases (rows == 0)) [
  | inl none_changed ↦
      let (same, _) = patch_order_status_none now user_id id from to rows t t' none_changed e in
      subst (λ (u : Tables). Step (status_of x t) (status_of x u)) (sym same)
        (stays (status_of x t))
  | inr changed ↦
      let (o, found, is, rows_now) =
        patch_order_status_found now user_id id from to rows t t' changed e in
      subst (λ (u : Tables). Step (status_of x t) (status_of x u)) (sym rows_now)
        (patched-Step x id now from to t.orders o found (same_status_eq o.status from is) st)
]

-- Putting the items back does not touch the orders.
set_stock_orders :
    (product_id stock rows : ℕ) (t t' : Tables)
    → set_stock product_id stock t ≡ some (rows, t')
    → t'.orders ≡ t.orders
unfolding set_stock
set_stock_orders product_id stock rows t t' e =
    elim (Option-cases (find (of_product product_id) t.inventories)) [
      | inl missing ↦ ground arith
      | inr (i, found) ↦ ground arith
    ]

create_stock_log_orders :
    (l : StockLog) (t t' : Tables) (u : Unit {0})
    → create_stock_log l t ≡ some (u, t')
    → t'.orders ≡ t.orders
unfolding create_stock_log
create_stock_log_orders l t t' u e = ground arith

restore_item_orders :
    (os : List Order) (id : ℕ) (item : OrderItem) (db : Db Tables)
    → db.tables.orders ≡ os
    → Ensures (λ _ t. t.orders ≡ os) (restore_item id item db)
unfolding restore_item
restore_item_orders os id item db h =
    Ensures-bind {Q = λ _ t. t.orders ≡ os} (Ensures-query _ _ db h) λ found db1 h1.
      Ensures-bind {Q = λ _ t. t.orders ≡ os} (Ensures-or_raise _ _ db1 λ _ _. h1) λ i db2 h2.
        Ensures-bind {Q = λ _ t. t.orders ≡ os}
          (Ensures-statement _ _ db2
            λ rows t e. set_stock_orders item.product_id _ rows db2.tables t e ∙ h2)
          λ rows db3 h3.
            Ensures-bind {Q = λ _ t. t.orders ≡ os} (Ensures-guard _ _ db3 λ _. h3) λ _ db4 h4.
              Ensures-statement _ _ db4 λ u t e. create_stock_log_orders _ db4.tables t u e ∙ h4

pub restore_items_orders :
    (os : List Order) (id : ℕ) (db : Db Tables)
    → db.tables.orders ≡ os
    → Ensures (λ _ t. t.orders ≡ os) (restore_items id db)
unfolding restore_items
restore_items_orders os id db h =
    Ensures-bind {Q = λ _ t. t.orders ≡ os} (Ensures-query _ _ db h) λ items db1 h1.
      Ensures-bind {Q = λ _ t. t.orders ≡ os}
        (Ensures-for_each (λ _. Unit {0}) (λ _ t. t.orders ≡ os) (restore_item id)
          (λ item xs db' _ i. restore_item_orders os id item db' i) items db1 (trivial items) h1)
        λ _ db2 h2. Ensures-pure _ db2 h2
