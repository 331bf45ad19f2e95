-- ===== src/Monolith/Books/Create.antt =====
-- `CreateOrder` of internal/service/order_service.go keeps the books balanced.
use Prim.Native.String.{String}
use go_order_management_syst.Prelude.{
  ◌≡◌, refl, ap, sym, ◌∙◌, inl, inr, Bool, true, false, some, none, Option, arith, if◌then◌else◌,
  Option-cases,
}
use go_order_management_syst.Prelude.Int64.{Int64}
use go_order_management_syst.Database.{Db}
use go_order_management_syst.Database.Ensures.{
  Ensures, Atomic, Ensures-bind, Ensures-statement, Ensures-query, Ensures-guard, Ensures-or_raise,
  Ensures-pure, Atomic-transaction, Atomic-guard,
}
use go_order_management_syst.Database.Table.{find, find-modify, find_holds}
use go_order_management_syst.Monolith.Store.{
  Order, Tables, has_id, create_order_row, patch_order_total, set_total, find_order, KeyStatus,
  being_created, already_created,
}
use go_order_management_syst.Monolith.Orders.Hash.{request_hash}
use go_order_management_syst.Monolith.Orders.Create.{
  CreateRequest, Surroundings, known_order, by_key_status, replay, new_order, finish_key,
  create_new, create_body, create_order,
}
use go_order_management_syst.Monolith.Books.{Balanced}
use go_order_management_syst.Monolith.Books.Statements.{
  patch_order_total-Takes, create_order_row_rows, patch_order_total_rows, SameBooks,
  complete_key-SameBooks, create_outbox-SameBooks, try_create_key-SameBooks,
}
use go_order_management_syst.Monolith.Books.Lines.{IsCreating, order_lines-IsCreating}

-- Balanced books, and an order stands in the tables with the user and the total it was returned with.
abbrev pub Stands : Int64 → Order → Tables → Type 0
Stands user_id r t =
    Balanced t
    × ((o : Order) × (find (has_id r.id) t.orders ≡ some o)
        × (o.user_id ≡ user_id)
        × (o.total_amount_fen ≡ r.total_amount_fen))

new_order-IsCreating :
    (s : Surroundings) (user_id id : Int64) (t t' : Tables)
    → Balanced t
    → create_order_row (new_order s user_id) t ≡ some (id, t')
    → IsCreating user_id id t'
new_order-IsCreating s user_id id t t' b e =
    let (stock, logs, orders) = create_order_row_rows (new_order s user_id) id t t' e in
    (
      record {
        stock_logged = λ p. ground (arith, b.stock_logged p);
        supplied_there = λ p. ground (arith, b.supplied_there p);
      },
      (record (new_order s user_id) { id = id }, rw orders (ground arith), refl, refl),
    )

priced-Stands :
    (s : Surroundings) (user_id id total : Int64) (t t' : Tables) (u : Unit {0})
    → IsCreating user_id id t
    → patch_order_total user_id id total t ≡ some (u, t')
    → Stands user_id (record (new_order s user_id) { id = id; total_amount_fen = total }) t'
priced-Stands s user_id id total t t' u (b, (o, found, is, own)) e =
    let takes = λ (p : Int64). patch_order_total-Takes p user_id id total t t' u e in
    (
      record {
        stock_logged = λ p. ground (arith, takes p, b.stock_logged p);
        supplied_there = λ p. ground (arith, takes p, b.supplied_there p);
      },
      (
        set_total user_id total o,
        ap (find (has_id id)) (patch_order_total_rows user_id id total t t' u e)
            ∙ find-modify (has_id id) (set_total user_id total) t.orders o found
                (ground (arith, find_holds (has_id id) t.orders o found)),
        ground arith,
        ground arith,
      ),
    )

SameBooks-Balanced : (t t' : Tables) → SameBooks t t' → Balanced t → Balanced t'
SameBooks-Balanced t t' same b = record {
  stock_logged = λ p. ground (arith, b.stock_logged p);
  supplied_there = λ p. ground (arith, b.supplied_there p);
}

SameBooks-Stands :
    (user_id : Int64) (r : Order) (t t' : Tables)
    → SameBooks t t'
    → Stands user_id r t
    → Stands user_id r t'
SameBooks-Stands user_id r t t' same (b, (o, found, own, total)) = (
  SameBooks-Balanced t t' same b,
  (o, ap (find (has_id r.id)) same.same_orders ∙ found, own, total),
)

finish_key-Stands :
    (user_id : Int64) (key : String) (id : Int64) (r : Order) (db : Db Tables)
    → Stands user_id r db.tables
    → Ensures (λ _ t. Stands user_id r t) (finish_key user_id key id db)
unfolding finish_key
finish_key-Stands user_id key id r db h =
    Ensures-bind {Q = λ _ t. Stands user_id r t}
      (Ensures-statement _ _ db λ rows t e.
        SameBooks-Stands user_id r db.tables t
          (complete_key-SameBooks user_id key id rows db.tables t e) h)
      λ rows db1 h1. Ensures-guard _ _ db1 λ _. h1

create_new-Stands :
    (s : Surroundings) (user_id : Int64) (req : CreateRequest) (db : Db Tables)
    → Balanced db.tables
    → Ensures (λ r t. Stands user_id r t) (create_new s user_id req db)
unfolding create_new
create_new-Stands s user_id req db b =
    Ensures-bind {Q = λ id t. IsCreating user_id id t}
      (Ensures-statement _ _ db λ id t e. new_order-IsCreating s user_id id db.tables t b e)
      λ id db1 h1.
        Ensures-bind {Q = λ _ t. IsCreating user_id id t} (Ensures-guard _ _ db1 λ _. h1)
          λ _ db2 h2.
            Ensures-bind (order_lines-IsCreating user_id id 0 req.items db2 h2) λ total db3 h3.
              let r = record (new_order s user_id) { id = id; total_amount_fen = total } in
              Ensures-bind {Q = λ _ t. Stands user_id r t}
                (Ensures-statement _ _ db3
                  λ u t e. priced-Stands s user_id id total db3.tables t u h3 e)
                λ _ db4 h4.
                  Ensures-bind (finish_key-Stands user_id req.idempotency_key id r db4 h4)
                    λ _ db5 h5.
                      Ensures-bind {Q = λ _ t. Stands user_id r t}
                        (Ensures-statement _ _ db5 λ u t e.
                          SameBooks-Stands user_id r db5.tables t
                            (create_outbox-SameBooks _ db5.tables t u e) h5)
                        λ _ db6 h6. Ensures-pure r db6 h6

found_order :
    (user_id id : Int64) (t : Tables) (o : Order)
    → find_order user_id id t ≡ some o
    → (find (has_id o.id) t.orders ≡ some o) × (o.user_id ≡ user_id)
found_order user_id id t o e = elim (Option-cases (find (has_id id) t.orders)) [
  | inl missing ↦ absurd (ground arith)
  | inr (x, found) ↦
      let same : o.id ≡ id = ground (arith, find_holds (has_id id) t.orders x found) in
      (rw same (found ∙ ground arith), ground arith)
]

known_order-Stands :
    (user_id : Int64) (order_id : Option Int64) (db : Db Tables)
    → Balanced db.tables
    → Ensures (λ r t. Stands user_id r t) (known_order user_id order_id db)
unfolding known_order
known_order-Stands user_id none db b = record { success = tt }
known_order-Stands user_id (some id) db b =
    Ensures-bind {Q = λ _ t. Balanced t} (Ensures-guard _ _ db λ _. b) λ _ db1 b1.
      Ensures-bind {Q = λ o t. (o ≡ find_order user_id id t) × Balanced t}
        (Ensures-query _ _ db1 (refl, b1))
        λ found db2 h2. Ensures-or_raise _ _ db2 λ r e.
          let (there, own) = found_order user_id id db2.tables r (sym h2.0 ∙ e) in
          (h2.1, (r, there, own, refl))

by_key_status-Stands :
    (user_id : Int64) (status : KeyStatus) (order_id : Option Int64) (db : Db Tables)
    → Balanced db.tables
    → Ensures (λ r t. Stands user_id r t) (by_key_status user_id status order_id db)
unfolding by_key_status
by_key_status-Stands user_id already_created order_id db b =
    known_order-Stands user_id order_id db b
by_key_status-Stands user_id being_created order_id db b = record { success = tt }

replay-Stands :
    (user_id : Int64) (key hash : String) (db : Db Tables)
    → Balanced db.tables
    → Ensures (λ r t. Stands user_id r t) (replay user_id key hash db)
unfolding replay
replay-Stands user_id key hash db b =
    Ensures-bind {Q = λ _ t. Balanced t} (Ensures-query _ _ db b) λ found db1 b1.
      Ensures-bind {Q = λ _ t. Balanced t} (Ensures-or_raise _ _ db1 λ _ _. b1) λ k db2 b2.
        Ensures-bind {Q = λ _ t. Balanced t} (Ensures-guard _ _ db2 λ _. b2)
          λ _ db3 b3. by_key_status-Stands user_id k.status k.order_id db3 b3

create_body-Stands :
    (s : Surroundings) (user_id : Int64) (req : CreateRequest) (hash : String) (db : Db Tables)
    → Balanced db.tables
    → Ensures (λ r t. Stands user_id r t) (create_body s user_id req hash db)
unfolding create_body
create_body-Stands s user_id req hash db b =
    Ensures-bind {Q = λ _ t. Balanced t}
      (Ensures-statement _ _ db λ acquired t e.
        SameBooks-Balanced db.tables t (try_create_key-SameBooks _ db.tables t acquired e) b)
      λ acquired db1 b1. either_way acquired db1 b1
  where
    either_way :
        (acquired : Bool) (db1 : Db Tables)
        → Balanced db1.tables
        → Ensures
            (λ r t. Stands user_id r t)
            ((if acquired
                then create_new s user_id req
                else replay user_id req.idempotency_key hash)
              db1)
    either_way true db1 b1 = create_new-Stands s user_id req db1 b1
    either_way false db1 b1 = replay-Stands user_id req.idempotency_key hash db1 b1

-- `CreateOrder` leaves the tables as they were when it returns an error, whatever statements fail.
-- Otherwise the books stay balanced, and the order that it returns, new or known, stands in the
-- tables for this user with the total that is returned.
pub create_order-Stands :
    (s : Surroundings) (user_id : Int64) (req : CreateRequest) (db : Db Tables)
    → Balanced db.tables
    → Atomic db.tables (λ r t. Stands user_id r t) (create_order s user_id req db)
unfolding create_order
create_order-Stands s user_id req db b =
    Atomic-guard (λ r t. Stands user_id r t) _ _ _ db
      λ _.
        Atomic-guard (λ r t. Stands user_id r t) _ _ _ db
          λ _.
            Atomic-transaction _ (create_body s user_id req (request_hash s.digest req.items)) db
              (create_body-Stands s user_id req (request_hash s.digest req.items) db b)
