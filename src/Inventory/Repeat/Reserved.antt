-- ===== src/Inventory/Repeat/Reserved.antt =====
-- The reservation that `Reserve` of internal/inventorysvc/inventory.go returns stands in the tables
-- under its order.
use Prim.Native.String.{String}
use mathlib.Core.Option.{some-injective}
use go_order_management_syst.Prelude.{
  ℕ, ◌≡◌, refl, sym, subst, ◌∙◌, true, List, [], ◌∷◌, Option, Option-cases, none, some, inl, inr,
  arith,
}
use text.Mathlib.TextPositions.{eq_refl}
use go_order_management_syst.Prelude.Int64.{Int64, is_positive}
use go_order_management_syst.Database.{Db, Result, ok, err}
use go_order_management_syst.Database.Ensures.{
  All, Ensures, Atomic-Ensures, Ensures-bind, Ensures-statement, Ensures-query, Ensures-guard,
  Ensures-or_raise, Ensures-for_each, Ensures-pure, Ensures-mono, Atomic-transaction,
}
use go_order_management_syst.Database.Table.{find}
use go_order_management_syst.Inventory.Normalize.{ItemRequest, normalize_items}
use go_order_management_syst.Inventory.Store.{
  Reservation, Tables, Error, with_id, of_order, add_item, update_reserve, create_item,
  create_reservation, create_log, StockLog, of_product,
}
use go_order_management_syst.Inventory.Service.{
  ReserveRequest, item_for, reserve_item, new_reservation, reserve_new, or_reserve, reserve_body,
  reserve_normalized, reserve_request,
}
use go_order_management_syst.Inventory.Accounts.Statements.{create_item_rows}

-- The newest reservation is this one.
abbrev IsNewest : String → Int64 → Tables → Type 0
IsNewest id order_id t =
    (r : Reservation) × (rest : List Reservation) × (t.reservations ≡ r ∷ rest)
    × (with_id id r ≡ true)
    × (r.order_id ≡ order_id)

update_reserve_rows :
    (product_id q : Int64) (t t' : Tables) (n : ℕ)
    → update_reserve product_id q t ≡ some (n, t')
    → t'.reservations ≡ t.reservations
unfolding update_reserve
update_reserve_rows product_id q t t' n e =
    elim (Option-cases (find (of_product product_id) t.inventories)) [
      | inl missing ↦ ground (arith, missing)
      | inr (i, found) ↦ ground (arith, found)
    ]

create_item-IsNewest :
    (id : String) (order_id : Int64) (item : ItemRequest) (t t' : Tables) (u : Unit {0})
    → IsNewest id order_id t
    → create_item (item_for id item) t ≡ some (u, t')
    → IsNewest id order_id t'
create_item-IsNewest id order_id item t t' u (r, rest, rows, own, same) e =
    let found : find (with_id id) t.reservations ≡ some r = rw (rows, own) refl in
    (
      add_item (item_for id item) r,
      rest,
      create_item_rows (item_for id item) t t' r u found e ∙ rw (rows, own) refl,
      own,
      same,
    )

create_log-IsNewest :
    (id : String) (order_id : Int64) (log : StockLog) (t t' : Tables) (u : Unit {0})
    → IsNewest id order_id t
    → create_log log t ≡ some (u, t')
    → IsNewest id order_id t'
create_log-IsNewest id order_id log t t' u h e =
    subst (λ (x : Unit {0} × Tables). IsNewest id order_id x.1) (some-injective _ _ e) h

reserve_item-IsNewest :
    (id : String) (order_id : Int64) (item : ItemRequest) (db : Db Tables)
    → IsNewest id order_id db.tables
    → Ensures (λ _ t. IsNewest id order_id t) (reserve_item id item db)
unfolding reserve_item
reserve_item-IsNewest id order_id item db h =
    Ensures-bind {Q = λ _ t. IsNewest id order_id t} (Ensures-query _ _ db h) λ found db1 h1.
      Ensures-bind {Q = λ _ t. IsNewest id order_id t} (Ensures-or_raise _ _ db1 λ _ _. h1)
        λ i db2 h2.
          Ensures-bind {Q = λ _ t. IsNewest id order_id t} (Ensures-guard _ _ db2 λ _. h2)
            λ _ db3 h3.
              Ensures-bind {Q = λ _ t. IsNewest id order_id t}
                (Ensures-statement _ _ db3 λ rows t e.
                  let (r, rest, held, own, same) = h3 in
                  (
                    r,
                    rest,
                    update_reserve_rows item.product_id item.quantity db3.tables t rows e ∙ held,
                    own,
                    same,
                  ))
                λ rows db4 h4.
                  Ensures-bind {Q = λ _ t. IsNewest id order_id t} (Ensures-guard _ _ db4 λ _. h4)
                    λ _ db5 h5.
                      Ensures-bind {Q = λ _ t. IsNewest id order_id t}
                        (Ensures-statement _ _ db5
                          λ u t e. create_item-IsNewest id order_id item db5.tables t u h5 e)
                        λ _ db6 h6.
                          Ensures-statement _ _ db6
                            λ u t e. create_log-IsNewest id order_id _ db6.tables t u h6 e

new_reservation-IsNewest :
    (id : String) (order_id : Int64) (t t' : Tables) (u : Unit {0})
    → create_reservation (new_reservation id order_id) t ≡ some (u, t')
    → IsNewest id order_id t'
unfolding create_reservation
new_reservation-IsNewest id order_id t t' u e =
    (new_reservation id order_id, t.reservations, ground (arith, e), eq_refl id, refl)

-- The reservation stands in the tables under its order.
abbrev Stands : Int64 → Reservation → Tables → Type 0
Stands order_id r t = find (of_order order_id) t.reservations ≡ some r

newest_found :
    (id : String) (order_id : Int64) (t : Tables) (r : Reservation)
    → IsNewest id order_id t
    → find (with_id id) t.reservations ≡ some r
    → Stands order_id r t
newest_found id order_id t r (newest, rest, rows, own, same) e = ground (arith, rows, own, same, e)

reserve_new-Stands :
    (id : String) (order_id : Int64) (items : List ItemRequest) (db : Db Tables)
    → Ensures (Stands order_id) (reserve_new id order_id items db)
unfolding reserve_new
reserve_new-Stands id order_id items db =
    Ensures-bind {Q = λ _ t. IsNewest id order_id t}
      (Ensures-statement _ _ db λ u t e. new_reservation-IsNewest id order_id db.tables t u e)
      λ _ db1 h1.
        Ensures-bind {Q = λ _ t. IsNewest id order_id t}
          (Ensures-for_each (λ _. Unit {0}) (λ _ t. IsNewest id order_id t) (reserve_item id)
            (λ x xs db' _ h. reserve_item-IsNewest id order_id x db' h) items db1 (trivial items)
            h1)
          λ _ db2 h2.
            Ensures-bind
              {Q = λ o t. IsNewest id order_id t × (o ≡ find (with_id id) t.reservations)}
              (Ensures-query _ _ db2 (h2, refl))
              λ found db3 h3.
                Ensures-or_raise _ _ db3
                  λ r e. newest_found id order_id db3.tables r h3.0 (sym h3.1 ∙ e)
  where
    trivial : (xs : List ItemRequest) → All (λ _. Unit {0}) xs
    trivial [] = tt
    trivial (x ∷ xs) = (tt, trivial xs)

reserve_body-Stands :
    (id : String) (order_id : Int64) (items : List ItemRequest) (db : Db Tables)
    → Ensures (Stands order_id) (reserve_body id order_id items db)
unfolding reserve_body
reserve_body-Stands id order_id items db =
    Ensures-bind {Q = λ o t. o ≡ find (of_order order_id) t.reservations}
      (Ensures-query _ _ db refl) λ existing db1 e. or_reserve-Stands existing db1 e
  where
    or_reserve-Stands :
        (o : Option Reservation) (db' : Db Tables)
        → o ≡ find (of_order order_id) db'.tables.reservations
        → Ensures (Stands order_id) (or_reserve id order_id items o db')
    or_reserve-Stands none db' e = reserve_new-Stands id order_id items db'
    or_reserve-Stands (some r) db' e = Ensures-pure r db' (sym e)

reserve_normalized-Stands :
    (id : String) (order_id : Int64) (x : Result Error (List ItemRequest)) (db : Db Tables)
    → Ensures
        (λ r t. (is_positive order_id ≡ true) × Stands order_id r t)
        (reserve_normalized id order_id x db)
reserve_normalized-Stands id order_id (err e) db = record { success = tt }
reserve_normalized-Stands id order_id (ok items) db =
    Ensures-bind {Q = λ _ _. is_positive order_id ≡ true}
      (Ensures-guard _ _ db λ positive. positive)
      λ _ db1 positive.
        Ensures-mono
          (Atomic-Ensures _ _ (
            Atomic-transaction _ (reserve_body id order_id items) db1
              (reserve_body-Stands id order_id items db1)))
          λ r t h. (positive, h)

pub reserve_request-Stands :
    (fresh : String) (req : ReserveRequest) (db db' : Db Tables) (r : Reservation)
    → reserve_request fresh req db ≡ (ok r, db')
    → (is_positive req.order_id ≡ true) × Stands req.order_id r db'.tables
unfolding reserve_request
reserve_request-Stands fresh req db db' r first =
    (subst (Ensures (λ r t. (is_positive req.order_id ≡ true) × Stands req.order_id r t)) first
      (reserve_normalized-Stands _ req.order_id (normalize_items req.items) db)).success
