-- ===== src/Ordering/Creation.antt =====
-- `Create`, `findByIdempotency` and `releaseWithTimeout` of internal/ordersvc/order.go: the saga that
-- reserves the items of a new order. The catalog and the inventory service are parameters.
pub mod Saga
mod Tests
use Prim.Native.String.{String}
use text.Mathlib.Text.{◌==◌ as str_eq}
use go_order_management_syst.Prelude.{
  ℕ, ◌+◌, Bool, true, false, not, ◌&&◌, List, [], ◌∷◌, map, Option, none, some, ltb, ◌==◌,
  if◌then◌else◌,
}
use go_order_management_syst.Prelude.Int64.{Int64, is_positive, wrapping_add}
use go_order_management_syst.Prelude.Text.{trim_space, is_empty, byte_length}
use go_order_management_syst.Database.{
  Result, ok, err, ◌>>=◌, ◌>>◌, pure, raise, guard, or_raise, statement, query, transaction,
  attempt, recover,
}
use go_order_management_syst.Database.Table.{find, modify, exists}
use go_order_management_syst.Ordering.Store.{
  Order, OrderItem, reserving, pending, failed, reconciliation_required, outbox_pending,
  RemoteError, Error, order_not_found, invalid_order_request, invalid_order_state,
  reservation_failed, compensation_required, remote_error, release_failed, db_error, Tables,
  is_status, has_id, update_order, set_status_reason,
}
use go_order_management_syst.Ordering.Items.{Catalog, ItemRequest, Resolved, resolve_items}
use go_order_management_syst.Ordering.Payment.{Statements, load_for_transition}

pub record CreateRequest : Type 0 where
  pub idempotency_key : String
  pub items : List ItemRequest

-- The inventory service: the id of the reservation that it makes for an order, and a release.
pub record Inventory : Type 0 where
  pub reserve : Int64 → String → List ItemRequest → Result RemoteError String
  pub release : String → Result RemoteError (Unit {0})

abbrev pub by_key : Int64 → String → Order → Bool
by_key user_id key o = o.user_id == user_id && str_eq o.idempotency_key key

-- `findByIdempotency`
unfoldable pub find_by_idempotency : Int64 → String → Statements Order
find_by_idempotency user_id key = do
  found ← query db_error (λ t. find (by_key user_id key) t.orders)
  or_raise found order_not_found

-- `INSERT INTO orders_v2`, with its unique key; the answer is the new id.
unfoldable pub insert_order : Order → Tables → Option (Int64 × Tables)
insert_order o t =
    if exists (by_key o.user_id o.idempotency_key) t.orders
    then none
    else some (
      t.next_order,
      record t {
        orders = record o { id = t.next_order } ∷ t.orders;
        next_order = wrapping_add t.next_order 1;
      },
    )

-- `INSERT INTO order_items_v2`; `items[i].OrderID = order.ID` is done here.
unfoldable pub insert_items : Int64 → List OrderItem → Tables → Option (Unit {0} × Tables)
insert_items id items t = some (
  tt,
  record t {
    orders =
        modify (has_id id)
          (λ o. record o { items = map {A = OrderItem} (λ i. record i { order_id = id }) items })
          t.orders;
  },
)

-- `INSERT INTO order_timeout_outbox_v2`, with its unique key.
unfoldable pub insert_outbox : ℕ → Int64 → Tables → Option (Unit {0} × Tables)
insert_outbox due_at id t =
    if exists (λ e. e.order_id == id) t.outbox
    then none
    else some (
      tt,
      record t {
        outbox = record { order_id = id; due_at = due_at; status = outbox_pending } ∷ t.outbox;
      },
    )

abbrev pub new_order : Int64 → String → String → Int64 → Order
new_order user_id key reservation_id total = record {
  id = 0;
  user_id = user_id;
  status = reserving;
  total_fen = total;
  reservation_id = reservation_id;
  idempotency_key = key;
  failure_reason = none;
  items = [];
}

-- The first transaction.
unfoldable pub insert_body : Order → List OrderItem → Statements Int64
insert_body order items = do
  id ← statement db_error (insert_order order)
  statement db_error (insert_items id items)
  pure id

abbrev pub set_reservation : String → Order → Order
set_reservation reservation_id o = record o {
  status = pending;
  reservation_id = reservation_id;
  failure_reason = none;
}

-- The second transaction.
unfoldable pub accept_body : ℕ → ℕ → Int64 → String → Statements (Unit {0})
accept_body now due_at id reservation_id = do
  rows ←
      statement db_error
        (update_order now id (λ o. is_status o.status reserving) (set_reservation reservation_id))
  guard (rows == 1) invalid_order_state
  statement db_error (insert_outbox due_at id)

-- After a failed second transaction and the answer to the release of its reservation.
unfoldable pub compensate :
    ℕ → Int64 → Error → Result RemoteError (Unit {0}) → Statements (Unit {0})
compensate now id e (ok _) = do
  attempt (statement db_error (update_order now id (λ _. true) (set_status_reason failed (some e))))
  raise e
compensate now id e (err r) = do
  attempt (
      statement db_error (
        update_order now id (λ _. true)
          (set_status_reason reconciliation_required (some (release_failed e r)))))
  raise compensation_required

-- From the answer of `s.inventory.Reserve` on.
unfoldable pub end_creation :
    ℕ → ℕ → Inventory → Int64 → Int64 → Result RemoteError String → Statements Order
end_creation now delay inventory user_id id (err e) = do
  attempt (
      statement db_error
        (update_order now id (λ _. true) (set_status_reason failed (some (remote_error e)))))
  raise (reservation_failed e)
end_creation now delay inventory user_id id (ok reservation_id) = do
  recover (transaction db_error (accept_body now (now + delay) id reservation_id))
      (λ e. compensate now id e (inventory.release reservation_id))
  load_for_transition user_id id false

-- The order with the key that is there after a failed insert, or a new order.
pub data Inserted : Type 0 where
  existing : Order → Inserted
  inserted : Int64 → Inserted

unfoldable pub insert_new : Order → List OrderItem → Statements Inserted
insert_new order items = do id ← transaction db_error (insert_body order items); pure (inserted id)

unfoldable pub lost_race : Int64 → String → Error → Statements Inserted
lost_race user_id key e = do
  order ← recover (find_by_idempotency user_id key) (λ _. raise e)
  pure (existing order)

unfoldable pub finish_creation :
    ℕ → ℕ → Inventory → Int64 → String → List ItemRequest → Inserted → Statements Order
finish_creation now delay inventory user_id reservation_id items (existing order) = pure order
finish_creation now delay inventory user_id reservation_id items (inserted id) =
    end_creation now delay inventory user_id id (inventory.reserve id reservation_id items)

-- From the resolved items on; `reservation_id` is the new UUID.
unfoldable pub create_resolved :
    ℕ → ℕ → Inventory → String → Int64 → String → Result Error Resolved → Statements Order
create_resolved now delay inventory reservation_id user_id key (err e) = raise e
create_resolved now delay inventory reservation_id user_id key (ok r) = do
  outcome ←
      recover (insert_new (new_order user_id key reservation_id r.total) r.items)
        (lost_race user_id key)
  finish_creation now delay inventory user_id reservation_id r.reserve_items outcome

-- What follows a failed lookup of the idempotency key.
unfoldable pub create_missing : Statements Order → Error → Statements Order
create_missing create order_not_found = create
create_missing create e = raise e

-- `Create`
unfoldable pub create_order :
    ℕ → ℕ → Catalog → Inventory → String → Int64 → CreateRequest → Statements Order
create_order now delay catalog inventory reservation_id user_id req = do
  guard (is_positive user_id) invalid_order_request
  guard
      (not (is_empty (trim_space req.idempotency_key))
        && not (ltb 64 (byte_length (trim_space req.idempotency_key))))
      invalid_order_request
  recover (find_by_idempotency user_id (trim_space req.idempotency_key)) (
      create_missing (
        create_resolved now delay inventory reservation_id user_id (trim_space req.idempotency_key)
          (resolve_items catalog req.items)))
