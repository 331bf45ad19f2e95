-- ===== src/Inventory/Repeat.antt =====
-- Repeated requests to internal/inventorysvc: the Saga retries its calls, so each must be harmless
-- the second time.
mod Reserved
use Prim.Native.String.{String}
use go_order_management_syst.Prelude.{
  ◌≡◌, ◌≢◌, sym, subst, inl, inr, Bool-cases, ◌∙◌, true, false, List, [], some, arith,
}
use go_order_management_syst.Prelude.Int64.{Int64, is_positive}
use go_order_management_syst.Prelude.Text.{trim_space, is_empty}
use go_order_management_syst.Database.{
  Db, ok, err, continue, statement, query, guard, or_raise, transaction,
}
use go_order_management_syst.Database.Ensures.{Atomic}
use go_order_management_syst.Database.Table.{find}
use go_order_management_syst.Inventory.Accounts.{Balanced}
use go_order_management_syst.Inventory.Accounts.Settle.{IsSettled, transition-Balanced}
use go_order_management_syst.Inventory.Repeat.Reserved.{reserve_request-Stands}
use go_order_management_syst.Inventory.Normalize.{ItemRequest, normalize_items}
use go_order_management_syst.Inventory.Store.{
  Reservation, ReservationStatus, reservation_pending, Tables, reservation_transition, with_id,
  of_order, same_status,
}
use go_order_management_syst.Inventory.Service.{
  ReserveRequest, reserve_body, reserve_normalized, reserve_request, settle, transition_body,
  transition,
}

abbrev pub healthy : Tables → Db Tables
healthy t = record { tables = t; faults = [] }

not_same : (s t : ReservationStatus) → s ≢ t → same_status s t ≡ false
not_same s t h = ground arith

same_status_refl : (s : ReservationStatus) → same_status s s ≡ true
same_status_refl s = ground arith

transition_body_done :
    (id : String) (target : ReservationStatus) (t : Tables) (r : Reservation)
    → find (with_id id) t.reservations ≡ some r
    → r.status ≡ target
    → transition_body id target (healthy t) ≡ (ok r, healthy t)
unfolding transition_body query statement or_raise continue
transition_body_done id target t r found same = rw found (rw same (rw (same_status_refl target)))

transition_body_refused :
    (id : String) (target other : ReservationStatus) (t : Tables) (r : Reservation)
    → find (with_id id) t.reservations ≡ some r
    → r.status ≡ target
    → target ≢ reservation_pending
    → other ≢ target
    → transition_body id other (healthy t) ≡ (err reservation_transition, healthy t)
unfolding transition_body settle query statement or_raise guard continue
transition_body_refused id target other t r found same moved differs =
    let other_target : same_status r.status other ≡ false =
      not_same r.status other (λ e. differs (sym e ∙ same)) in
    let left_pending : same_status r.status reservation_pending ≡ false =
      not_same r.status reservation_pending (λ e. moved (sym same ∙ e)) in
    rw found (rw other_target (rw left_pending))

transition_settled :
    (id : String) (target other : ReservationStatus) (t : Tables) (r : Reservation)
    → is_empty (trim_space id) ≡ false
    → find (with_id (trim_space id)) t.reservations ≡ some r
    → r.status ≡ target
    → target ≢ reservation_pending
    → other ≢ target
    → (transition id target (healthy t) ≡ (ok r, healthy t))
      × (transition id other (healthy t) ≡ (err reservation_transition, healthy t))
unfolding transition transaction statement continue
transition_settled id target other t r given found same moved differs = (
  rw given (rw (transition_body_done (trim_space id) target t r found same)),
  rw given (rw (transition_body_refused (trim_space id) target other t r found same moved differs)),
)

transition_given :
    (id : String) (target : ReservationStatus) (db db' : Db Tables) (r : Reservation)
    → transition id target db ≡ (ok r, db')
    → is_empty (trim_space id) ≡ false
unfolding transition
transition_given id target db db' r first = elim (Bool-cases (is_empty (trim_space id))) [
  | inl blank ↦ ground (arith, first, blank)
  | inr given ↦ given
]

-- From balanced books, whatever statements fail in the first request: once a `Confirm` or `Release`
-- has returned a reservation, the same request returns it again and changes nothing, and one for any
-- other status is refused and changes nothing, if the database answers then.
pub transition_repeat :
    (id : String) (target other : ReservationStatus) (db db' : Db Tables) (r : Reservation)
    → Balanced db.tables
    → target ≢ reservation_pending
    → other ≢ target
    → transition id target db ≡ (ok r, db')
    → (transition id target (healthy db'.tables) ≡ (ok r, healthy db'.tables))
      × (transition id other (healthy db'.tables)
          ≡ (err reservation_transition, healthy db'.tables))
transition_repeat id target other db db' r b moved differs first =
    let after =
      subst (Atomic db.tables (λ s t. Balanced t × IsSettled (trim_space id) target s t)) first
        (transition-Balanced id target db moved b) in
    let given = transition_given id target db db' r first in
    transition_settled id target other db'.tables r given after.1.1 after.1.0 moved differs

reserve_body_done :
    (id : String) (order_id : Int64) (items : List ItemRequest) (t : Tables) (r : Reservation)
    → find (of_order order_id) t.reservations ≡ some r
    → reserve_body id order_id items (healthy t) ≡ (ok r, healthy t)
unfolding reserve_body query statement continue
reserve_body_done id order_id items t r found = rw found

-- Whatever statements fail in the first request: once a `Reserve` has returned a reservation, another
-- one for the same order, with valid items, returns that reservation, whatever items and id it names,
-- and changes nothing, if the database answers then.
pub reserve_repeat :
    (fresh other : String) (req again : ReserveRequest) (items : List ItemRequest)
    (db db' : Db Tables) (r : Reservation)
    → reserve_request fresh req db ≡ (ok r, db')
    → again.order_id ≡ req.order_id
    → normalize_items again.items ≡ ok items
    → reserve_request other again (healthy db'.tables) ≡ (ok r, healthy db'.tables)
unfolding reserve_request statement guard transaction continue
reserve_repeat fresh other req again items db db' r first same valid =
    let (positive, found) = reserve_request-Stands fresh req db db' r first in
    rw (valid, reserve_normalized)
      (rw same (rw positive (rw (reserve_body_done _ req.order_id items db'.tables r found))))
