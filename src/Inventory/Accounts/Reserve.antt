-- ===== src/Inventory/Accounts/Reserve.antt =====
-- `Reserve` of internal/inventorysvc/inventory.go keeps the books balanced.
use Prim.Native.String.{String}
use mathlib.Core.Option.{some-injective}
use text.Mathlib.TextPositions.{eq_refl}
use go_order_management_syst.Prelude.{
  ◌≡◌, refl, ap, sym, subst, ◌∙◌, inl, inr, true, List, [], ◌∷◌, ◌++◌, Option, none, some, arith,
  Bool-cases,
}
use go_order_management_syst.Prelude.Int64.{Int64, is_positive, wrapping_neg}
use go_order_management_syst.Database.{Db, Result, ok, err}
use go_order_management_syst.Database.Ensures.{
  All, Atomic-guard, Ensures-pure, Ensures, Atomic, Ensures-bind, Ensures-statement, Ensures-query,
  Ensures-guard, Ensures-or_raise, Ensures-for_each, Atomic-transaction,
}
use go_order_management_syst.Database.Table.{find, modify, find-modify, find_holds}
use go_order_management_syst.Inventory.Normalize.{ItemRequest, normalize_items}
use go_order_management_syst.Inventory.Store.{
  Reservation, ReservationItem, reservation_pending, Tables, Error, reserve, with_id, add_item,
  update_reserve, create_item, create_log, create_reservation,
}
use go_order_management_syst.Inventory.Service.{
  ReserveRequest, new_reservation, or_reserve, reserve_new, reserve_body, reserve_normalized,
  reserve_request, log_of, item_for, reserve_item,
}
use go_order_management_syst.Inventory.Accounts.{of_p, AllPositive, AllItemsPositive, Balanced}
use go_order_management_syst.Inventory.Accounts.Statements.{
  Moved, Holds, update_reserve-Moved, create_item-Holds, create_item_positive, create_item_rows,
}

AllPositive-append :
    (item : ReservationItem) (items : List ReservationItem)
    → is_positive item.quantity ≡ true
    → AllPositive items
    → AllPositive (items ++ item ∷ [])
AllPositive-append item [] h all = (h, tt)
AllPositive-append item (x ∷ items) h all = (all.0, AllPositive-append item items h all.1)

add_item-AllItemsPositive :
    (item : ReservationItem) (rs : List Reservation)
    → is_positive item.quantity ≡ true
    → AllItemsPositive rs
    → AllItemsPositive (modify (with_id item.reservation_id) (add_item item) rs)
add_item-AllItemsPositive item [] h all = tt
add_item-AllItemsPositive item (r ∷ rs) h all = elim (Bool-cases (with_id item.reservation_id r)) [
  | inl here ↦ rw here (AllPositive-append item r.items h all.0, all.1)
  | inr there ↦ rw there (all.0, add_item-AllItemsPositive item rs h all.1)
]

-- The books after an item is reserved: the stock has moved, then the reservation, then the log.
reserve_step-Balanced :
    (id : String) (item : ItemRequest) (t t1 t2 : Tables)
    → is_positive item.quantity ≡ true
    → ((p : Int64)
        → Moved p t t1
            (of_p p item.product_id item.quantity)
            0
            0
            (of_p p item.product_id item.quantity))
    → ((p : Int64) → Holds p t1 t2 0 (of_p p item.product_id item.quantity))
    → AllItemsPositive t2.reservations
    → Balanced t
    → Balanced (record t2 {
      logs = log_of item.product_id reserve (wrapping_neg item.quantity) id ∷ t2.logs;
    })
reserve_step-Balanced id item t t1 t2 pos moved holds all b = record {
  reserved_held = λ p. ground (arith, moved p, holds p, b.reserved_held p);
  available_logged = λ p. ground (arith, moved p, holds p, b.available_logged p);
  house_logged = λ p. ground (arith, moved p, holds p, b.house_logged p);
  items_positive = all;
}

-- Balanced books, and the reservation with this id is there and pending.
abbrev pub IsReserving : String → Tables → Type 0
IsReserving id t =
    Balanced t
    × ((r : Reservation) × (find (with_id id) t.reservations ≡ some r)
        × (r.status ≡ reservation_pending))

reserved-IsReserving :
    (id : String) (item : ItemRequest) (t t1 t2 t3 : Tables) (u v : Unit {0})
    → IsReserving id t
    → update_reserve item.product_id item.quantity t ≡ some (1, t1)
    → create_item (item_for id item) t1 ≡ some (u, t2)
    → create_log (log_of item.product_id reserve (wrapping_neg item.quantity) id) t2 ≡ some (v, t3)
    → IsReserving id t3
reserved-IsReserving id item t t1 t2 t3 u v (b, (r, found, pending)) e1 e2 e3 =
    let pos = create_item_positive (item_for id item) t1 t2 u e2 in
    let moved = λ (p : Int64). update_reserve-Moved p item.product_id item.quantity t t1 pos e1 in
    let found1 : find (with_id id) t1.reservations ≡ some r =
      ap (find (with_id id)) (moved 0).same_reservations ∙ found in
    let holds = λ (p : Int64). create_item-Holds p (item_for id item) t1 t2 r u found1 pending e2 in
    let rows = create_item_rows (item_for id item) t1 t2 r u found1 e2 in
    let all : AllItemsPositive t2.reservations = subst AllItemsPositive (sym rows) (
      add_item-AllItemsPositive (item_for id item) t1.reservations pos
        (subst AllItemsPositive (sym (moved 0).same_reservations) b.items_positive)) in
    let found2 : find (with_id id) t2.reservations ≡ some (add_item (item_for id item) r) =
      ap (find (with_id id)) rows
      ∙ find-modify (with_id id) (add_item (item_for id item)) t1.reservations r found1
          (find_holds (with_id id) t1.reservations r found1) in
    subst (IsReserving id) (ap (λ x. x.1) (some-injective _ _ e3)) (
      reserve_step-Balanced id item t t1 t2 pos moved holds all b,
      (add_item (item_for id item) r, found2, pending),
    )

pub reserve_item-IsReserving :
    (id : String) (item : ItemRequest) (db : Db Tables)
    → IsReserving id db.tables
    → Ensures (λ _ t. IsReserving id t) (reserve_item id item db)
unfolding reserve_item
reserve_item-IsReserving id item db h =
    Ensures-bind {Q = λ _ t. IsReserving id t} (Ensures-query _ _ db h) λ found db1 h1.
      Ensures-bind {Q = λ _ t. IsReserving id t} (Ensures-or_raise _ _ db1 λ _ _. h1) λ i db2 h2.
        Ensures-bind {Q = λ _ t. IsReserving id t} (Ensures-guard _ _ db2 λ _. h2) λ _ db3 h3.
          Ensures-bind
            {Q = λ rows t. update_reserve item.product_id item.quantity db3.tables ≡ some (rows, t)}
            (Ensures-statement _ _ db3 λ rows t e. e)
            λ rows db4 e4.
              Ensures-bind
                {Q = λ _ t. update_reserve item.product_id item.quantity db3.tables ≡ some (1, t)}
                (Ensures-guard _ _ db4 λ one. ground (arith, one, e4))
                λ _ db5 e5.
                  Ensures-bind {Q = λ u t. create_item (item_for id item) db5.tables ≡ some (u, t)}
                    (Ensures-statement _ _ db5 λ u t e. e)
                    λ u db6 e6. Ensures-statement _ _ db6 λ v t e7.
                      reserved-IsReserving id item db3.tables db5.tables db6.tables t u v h3 e5 e6
                        e7

create_reservation_rows :
    (r : Reservation) (t t' : Tables) (u : Unit {0})
    → create_reservation r t ≡ some (u, t')
    → t' ≡ record t { reservations = r ∷ t.reservations }
unfolding create_reservation
create_reservation_rows r t t' u e = ground arith

new_reservation-IsReserving :
    (id : String) (order_id : Int64) (t t' : Tables) (u : Unit {0})
    → Balanced t
    → create_reservation (new_reservation id order_id) t ≡ some (u, t')
    → IsReserving id t'
unfolding create_reservation
new_reservation-IsReserving id order_id t t' u b e =
    subst (IsReserving id) (sym (create_reservation_rows (new_reservation id order_id) t t' u e)) (
      record {
        reserved_held = λ p. omega (arith, b.reserved_held p);
        available_logged = b.available_logged;
        house_logged = b.house_logged;
        items_positive = (tt, b.items_positive);
      },
      (new_reservation id order_id, simp eq_refl, refl),
    )

reserve_new-Balanced :
    (id : String) (order_id : Int64) (items : List ItemRequest) (db : Db Tables)
    → Balanced db.tables
    → Ensures (λ _ t. Balanced t) (reserve_new id order_id items db)
unfolding reserve_new
reserve_new-Balanced id order_id items db b =
    Ensures-bind {Q = λ _ t. IsReserving id t}
      (Ensures-statement _ _ db λ u t e. new_reservation-IsReserving id order_id db.tables t u b e)
      λ _ db1 h1.
        Ensures-bind {Q = λ _ t. IsReserving id t}
          (Ensures-for_each (λ _. Unit {0}) (λ _ t. IsReserving id t) (reserve_item id)
            (λ x xs db' _ h. reserve_item-IsReserving id x db' h) items db1 (trivial items) h1)
          λ _ db2 h2.
            Ensures-bind {Q = λ _ t. IsReserving id t} (Ensures-query _ _ db2 h2)
              λ found db3 h3. Ensures-or_raise _ _ db3 λ _ _. h3.0
  where
    trivial : (xs : List ItemRequest) → All (λ _. Unit {0}) xs
    trivial [] = tt
    trivial (x ∷ xs) = (tt, trivial xs)

reserve_body-Balanced :
    (id : String) (order_id : Int64) (items : List ItemRequest) (db : Db Tables)
    → Balanced db.tables
    → Ensures (λ _ t. Balanced t) (reserve_body id order_id items db)
unfolding reserve_body
reserve_body-Balanced id order_id items db b =
    Ensures-bind {Q = λ _ t. Balanced t} (Ensures-query _ _ db b)
      λ existing db1 b1. or_reserve-Balanced existing db1 b1
  where
    or_reserve-Balanced :
        (o : Option Reservation) (db' : Db Tables)
        → Balanced db'.tables
        → Ensures (λ _ t. Balanced t) (or_reserve id order_id items o db')
    or_reserve-Balanced none db' b' = reserve_new-Balanced id order_id items db' b'
    or_reserve-Balanced (some r) db' b' = Ensures-pure r db' b'

reserve_normalized-Balanced :
    (id : String) (order_id : Int64) (r : Result Error (List ItemRequest)) (db : Db Tables)
    → Balanced db.tables
    → Atomic db.tables (λ _ t. Balanced t) (reserve_normalized id order_id r db)
reserve_normalized-Balanced id order_id (err e) db b = refl
reserve_normalized-Balanced id order_id (ok items) db b =
    Atomic-guard (λ _ t. Balanced t) _ _ _ db
      λ _.
        Atomic-transaction _ (reserve_body id order_id items) db
          (reserve_body-Balanced id order_id items db b)

-- `Reserve` leaves the tables as they were when it returns an error, whatever statements fail, and
-- keeps the books balanced when it returns a reservation.
pub reserve_request-Balanced :
    (fresh : String) (req : ReserveRequest) (db : Db Tables)
    → Balanced db.tables
    → Atomic db.tables (λ _ t. Balanced t) (reserve_request fresh req db)
unfolding reserve_request
reserve_request-Balanced fresh req db b =
    reserve_normalized-Balanced _ req.order_id (normalize_items req.items) db b
