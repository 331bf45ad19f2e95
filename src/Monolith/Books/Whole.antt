-- ===== src/Monolith/Books/Whole.antt =====
-- Every sequence of calls of internal/service on orders and stock keeps the books balanced.
use Prim.Native.String.{String}
use go_order_management_syst.Prelude.{
  ℕ, ◌≡◌, refl, sym, subst, ◌⊎◌, inl, inr, some, List, [], ◌∷◌, Option, some, arith,
}
use go_order_management_syst.Prelude.Int64.{Int64}
use go_order_management_syst.Database.{Db, Result, ok, err}
use go_order_management_syst.Database.Ensures.{Atomic}
use go_order_management_syst.Database.Outcome.{
  Outcome, Outcome-bind, Outcome-statement, Outcome-query, Outcome-guard, Outcome-or_raise,
  Outcome-raise, Outcome-tables,
}
use go_order_management_syst.Monolith.Store.{
  Order, OrderStatus, pending, paid, finished, cancelled, Tables, Error, patch_order_status,
}
use go_order_management_syst.Monolith.Orders.Create.{CreateRequest, Surroundings, create_order}
use go_order_management_syst.Monolith.Orders.Lifecycle.{
  cancel_order, cancel_expired_order, pay_found, pay_order, finish_found, finish_order,
}
use go_order_management_syst.Monolith.Stock.{init_inventory, add_inventory}
use go_order_management_syst.Monolith.Books.{Balanced}
use go_order_management_syst.Monolith.Books.Statements.{patch_order_status-Takes}
use go_order_management_syst.Monolith.Books.Create.{create_order-Stands}
use go_order_management_syst.Monolith.Books.Cancel.{cancel_order-Balanced}
use go_order_management_syst.Monolith.Books.Expire.{Expired-Balanced, cancel_expired_order-Expired}
use go_order_management_syst.Monolith.Books.Supply.{init_inventory-Balanced, add_inventory-Balanced}

patched-Balanced :
    (now user_id id rows : ℕ) (from to : OrderStatus) (t t' : Tables)
    → (from ≡ pending) × (to ≡ paid) ⊎ (from ≡ paid) × (to ≡ finished)
    → Balanced t
    → patch_order_status now user_id id from to t ≡ some (rows, t')
    → Balanced t'
patched-Balanced now user_id id rows from to t t' h b e =
    let takes = λ (p : ℕ). patch_order_status-Takes p now user_id id rows from to t t' h e in
    record {
      stock_logged = λ p. ground (arith, takes p, b.stock_logged p);
      supplied_there = λ p. ground (arith, takes p, b.supplied_there p);
    }

pay_found-Balanced :
    (now user_id : ℕ) (order : Order) (status : OrderStatus) (db : Db Tables)
    → Balanced db.tables
    → Outcome (λ _ t. Balanced t) Balanced (pay_found now user_id order status db)
unfolding pay_found
pay_found-Balanced now user_id order paid db b = Outcome-raise _ db b
pay_found-Balanced now user_id order finished db b = Outcome-raise _ db b
pay_found-Balanced now user_id order cancelled db b = Outcome-raise _ db b
pay_found-Balanced now user_id order pending db b =
    Outcome-bind {Q = λ _ t. Balanced t}
      (Outcome-statement _ _ db b λ rows t e.
        patched-Balanced now user_id order.id rows pending paid db.tables t (inl (refl, refl)) b e)
      λ rows db1 h1. Outcome-guard _ _ db1 (λ _. h1) (λ _. h1)

finish_found-Balanced :
    (now user_id : ℕ) (order : Order) (status : OrderStatus) (db : Db Tables)
    → Balanced db.tables
    → Outcome (λ _ t. Balanced t) Balanced (finish_found now user_id order status db)
unfolding finish_found
finish_found-Balanced now user_id order pending db b = Outcome-raise _ db b
finish_found-Balanced now user_id order cancelled db b = Outcome-raise _ db b
finish_found-Balanced now user_id order finished db b = Outcome-raise _ db b
finish_found-Balanced now user_id order paid db b =
    Outcome-bind {Q = λ _ t. Balanced t}
      (Outcome-statement _ _ db b λ rows t e.
        patched-Balanced now user_id order.id rows paid finished db.tables t (inr (refl, refl)) b e)
      λ rows db1 h1. Outcome-guard _ _ db1 (λ _. h1) (λ _. h1)

pay_order-Balanced :
    (now user_id id : ℕ) (db : Db Tables)
    → Balanced db.tables
    → Outcome (λ _ t. Balanced t) Balanced (pay_order now user_id id db)
unfolding pay_order
pay_order-Balanced now user_id id db b =
    Outcome-bind {Q = λ _ t. Balanced t} (Outcome-query _ _ db b b) λ found db1 b1.
      Outcome-bind {Q = λ _ t. Balanced t} (Outcome-or_raise found _ db1 b1 λ _ _. b1)
        λ o db2 b2. pay_found-Balanced now user_id o o.status db2 b2

finish_order-Balanced :
    (now user_id id : ℕ) (db : Db Tables)
    → Balanced db.tables
    → Outcome (λ _ t. Balanced t) Balanced (finish_order now user_id id db)
unfolding finish_order
finish_order-Balanced now user_id id db b =
    Outcome-bind {Q = λ _ t. Balanced t} (Outcome-query _ _ db b b) λ found db1 b1.
      Outcome-bind {Q = λ _ t. Balanced t} (Outcome-or_raise found _ db1 b1 λ _ _. b1)
        λ o db2 b2. finish_found-Balanced now user_id o o.status db2 b2

-- A call of the service.
pub data Call : Type 0 where
  create : Surroundings → Int64 → CreateRequest → Call
  cancel : ℕ → Int64 → Int64 → Call
  expire : ℕ → String → Int64 → Call
  pay : ℕ → Int64 → Int64 → Call
  finish : ℕ → Int64 → Int64 → Call
  init : Int64 → Option Int64 → Call
  add : Int64 → Int64 → Call

unfoldable pub serve : Call → Db Tables → Db Tables
serve (create s user_id req) db = (create_order s user_id req db).1
serve (cancel now user_id id) db = (cancel_order now user_id id db).1
serve (expire now event_id id) db = (cancel_expired_order now event_id id db).1
serve (pay now user_id id) db = (pay_order now user_id id db).1
serve (finish now user_id id) db = (finish_order now user_id id db).1
serve (init product_id stock) db = (init_inventory product_id stock db).1
serve (add product_id q) db = (add_inventory product_id q db).1

unfoldable pub serve_all : List Call → Db Tables → Db Tables
serve_all [] db = db
serve_all (call ∷ calls) db = serve_all calls (serve call db)

Atomic-Balanced :
    {A : Type 0} (Q : A → Tables → Type 0) (t : Tables) (r : Result Error A × Db Tables)
    → Balanced t
    → ((a : A) (t' : Tables) → Q a t' → Balanced t')
    → Atomic t Q r
    → Balanced r.1.tables
Atomic-Balanced Q t (ok a, db) b k h = k a db.tables h
Atomic-Balanced Q t (err e, db) b k h = subst Balanced (sym h) b

serve-Balanced :
    (call : Call) (db : Db Tables) → Balanced db.tables → Balanced (serve call db).tables
unfolding serve
serve-Balanced (create s user_id req) db b =
    Atomic-Balanced _ db.tables (create_order s user_id req db) b (λ _ t h. h.0)
      (create_order-Stands s user_id req db b)
serve-Balanced (cancel now user_id id) db b =
    Atomic-Balanced _ db.tables (cancel_order now user_id id db) b (λ _ t h. h.0)
      (cancel_order-Balanced now user_id id db b)
serve-Balanced (expire now event_id id) db b =
    Atomic-Balanced _ db.tables (cancel_expired_order now event_id id db) b
      (λ _ t h. Expired-Balanced now id db.tables _ t b h)
      (cancel_expired_order-Expired now event_id id db b)
serve-Balanced (pay now user_id id) db b =
    Outcome-tables Balanced (pay_order now user_id id db) (pay_order-Balanced now user_id id db b)
      (λ _ t h. h) (λ t h. h)
serve-Balanced (finish now user_id id) db b =
    Outcome-tables Balanced (finish_order now user_id id db)
      (finish_order-Balanced now user_id id db b) (λ _ t h. h) (λ t h. h)
serve-Balanced (init product_id stock) db b =
    Outcome-tables Balanced (init_inventory product_id stock db)
      (init_inventory-Balanced product_id stock db b) (λ _ t h. h)
      (λ t same. subst Balanced (sym same) b)
serve-Balanced (add product_id q) db b =
    Atomic-Balanced _ db.tables (add_inventory product_id q db) b (λ _ t h. h)
      (add_inventory-Balanced product_id q db b)

-- Whatever calls create, cancel, expire, pay for or finish orders and initialize or add stock, in
-- whatever order and with whatever statements failing, books that balance before them balance after
-- them: the stock of every product is the sum of its logged changes, and what was supplied of it is in
-- the stock or taken by an order that is not cancelled, as 64-bit integers.
pub serve_all-Balanced :
    (calls : List Call) (db : Db Tables) → Balanced db.tables → Balanced (serve_all calls db).tables
unfolding serve_all
serve_all-Balanced [] db b = b
serve_all-Balanced (call ∷ calls) db b =
    serve_all-Balanced calls (serve call db) (serve-Balanced call db b)
