-- ===== src/Inventory/Service.antt =====
-- The service of internal/inventorysvc/inventory.go. `uuid.NewString()` is an argument.
use Prim.Native.String.{String}
use go_order_management_syst.Prelude.{
  Bool, true, false, not, ◌&&◌, List, [], ◌∷◌, Option, none, some, ◌==◌, if◌then◌else◌,
}
use go_order_management_syst.Prelude.Int64.{
  Int64, is_positive, is_negative, signed_ltb, wrapping_neg,
}
use go_order_management_syst.Prelude.Text.{trim_space, is_empty}
use go_order_management_syst.Database.{
  Result, ok, err, ◌>>=◌, ◌>>◌, pure, raise, guard, or_raise, statement, query, transaction,
  for_each,
}
use go_order_management_syst.Database as Database
use go_order_management_syst.Database.Table.{find}
use go_order_management_syst.Inventory.Normalize.{ItemRequest, normalize_items}
use go_order_management_syst.Inventory.Store.{
  Inventory, Reservation, ReservationItem, ReservationStatus, reservation_pending,
  reservation_confirmed, reservation_released, ChangeType, StockLog, initialize, add, reserve,
  confirm, release, Tables, Error, inventory_not_found, insufficient_inventory,
  reservation_not_found, reservation_transition, invalid_inventory_amount, db_error, same_status,
  of_product, with_id, of_order, update_add, update_reserve, update_settle, create_inventory,
  create_reservation, create_item, create_log, update_status,
}

abbrev pub Action : Type 0 → Type 0
Action A = Database.Action Tables Error A

pub record ReserveRequest : Type 0 where
  pub order_id : Int64
  pub reservation_id : String
  pub items : List ItemRequest

unfoldable pub get_inventory : Int64 → Action Inventory
get_inventory product_id = do
  or_raise (← query db_error (λ t. find (of_product product_id) t.inventories)) inventory_not_found

abbrev pub log_of : Int64 → ChangeType → Int64 → String → StockLog
log_of product_id change_type quantity reference_id = record {
  product_id = product_id;
  change_type = change_type;
  quantity = quantity;
  reference_id = reference_id;
}

abbrev pub new_inventory : Int64 → Int64 → Inventory
new_inventory product_id quantity = record {
  product_id = product_id;
  available_quantity = quantity;
  reserved_quantity = 0;
  version = 0;
}

unfoldable pub init_body : Int64 → Int64 → Action (Unit {0})
init_body product_id quantity = do
  statement db_error (create_inventory (new_inventory product_id quantity))
  statement db_error (create_log (log_of product_id initialize quantity ""))

-- `Init`
unfoldable pub init_inventory : Int64 → Int64 → Action Inventory
init_inventory product_id quantity = do
  guard (is_positive product_id && not (is_negative quantity)) invalid_inventory_amount
  transaction db_error (init_body product_id quantity)
  pure (new_inventory product_id quantity)

unfoldable pub add_body : Int64 → Int64 → Action Inventory
add_body product_id quantity = do
  or_raise (← query db_error (λ t. find (of_product product_id) t.inventories)) inventory_not_found
  statement db_error (update_add product_id quantity)
  statement db_error (create_log (log_of product_id add quantity ""))
  or_raise (← query db_error (λ t. find (of_product product_id) t.inventories)) db_error

-- `Add`
unfoldable pub add_inventory : Int64 → Int64 → Action Inventory
add_inventory product_id quantity = do
  guard (is_positive product_id && is_positive quantity) invalid_inventory_amount
  transaction db_error (add_body product_id quantity)

abbrev pub item_for : String → ItemRequest → ReservationItem
item_for id item = record {
  reservation_id = id;
  product_id = item.product_id;
  quantity = item.quantity;
}

-- One round of the loop of `Reserve`.
unfoldable pub reserve_item : String → ItemRequest → Action (Unit {0})
reserve_item id item = do
  found ← query db_error (λ t. find (of_product item.product_id) t.inventories)
  inventory ← or_raise found inventory_not_found
  guard (not (signed_ltb inventory.available_quantity item.quantity)) insufficient_inventory
  rows ← statement db_error (update_reserve item.product_id item.quantity)
  guard (rows == 1) insufficient_inventory
  statement db_error (create_item (item_for id item))
  statement db_error (create_log (log_of item.product_id reserve (wrapping_neg item.quantity) id))

abbrev pub new_reservation : String → Int64 → Reservation
new_reservation id order_id = record {
  id = id;
  order_id = order_id;
  status = reservation_pending;
  items = [];
}

unfoldable pub reserve_new : String → Int64 → List ItemRequest → Action Reservation
reserve_new id order_id items = do
  statement db_error (create_reservation (new_reservation id order_id))
  for_each (reserve_item id) items
  or_raise (← query db_error (λ t. find (with_id id) t.reservations)) db_error

abbrev pub or_reserve : String → Int64 → List ItemRequest → Option Reservation → Action Reservation
or_reserve id order_id items (some existing) = pure existing
or_reserve id order_id items none = reserve_new id order_id items

-- The body of the transaction of `Reserve`.
unfoldable pub reserve_body : String → Int64 → List ItemRequest → Action Reservation
reserve_body id order_id items = do
  existing ← query db_error (λ t. find (of_order order_id) t.reservations)
  or_reserve id order_id items existing

abbrev pub reserve_normalized :
    String → Int64 → Result Error (List ItemRequest) → Action Reservation
reserve_normalized id order_id (err e) = raise invalid_inventory_amount
reserve_normalized id order_id (ok items) = do
  guard (is_positive order_id) invalid_inventory_amount
  transaction db_error (reserve_body id order_id items)

-- `Reserve`; the first argument is the id that `uuid.NewString()` would give.
unfoldable pub reserve_request : String → ReserveRequest → Action Reservation
unfolding trim_space
reserve_request fresh req =
    let given = trim_space req.reservation_id in
    reserve_normalized (if is_empty given then fresh else given) req.order_id
      (normalize_items req.items)

-- `sort.Slice` of the items by product id. The ids are positive.
unfoldable pub insert_by_product : ReservationItem → List ReservationItem → List ReservationItem
insert_by_product item [] = item ∷ []
insert_by_product item (x ∷ xs) =
    if signed_ltb item.product_id x.product_id then item ∷ x ∷ xs else x ∷ insert_by_product item xs

unfoldable pub sort_by_product : List ReservationItem → List ReservationItem
unfolding insert_by_product
sort_by_product [] = []
sort_by_product (x ∷ xs) = insert_by_product x (sort_by_product xs)

abbrev pub settle_log : Bool → String → ReservationItem → StockLog
settle_log true id item = log_of item.product_id release item.quantity id
settle_log false id item = log_of item.product_id confirm (wrapping_neg item.quantity) id

-- One round of the loop of `transition`; the flag says that the target is a release.
unfoldable pub settle_item : Bool → String → ReservationItem → Action (Unit {0})
settle_item releases id item = do
  found ← query db_error (λ t. find (of_product item.product_id) t.inventories)
  or_raise found db_error
  rows ← statement db_error (update_settle releases item.product_id item.quantity)
  guard (rows == 1) reservation_transition
  statement db_error (create_log (settle_log releases id item))

abbrev pub is_release : ReservationStatus → Bool
is_release target = same_status target reservation_released

unfoldable pub settle : String → ReservationStatus → Reservation → Action Reservation
unfolding sort_by_product
settle id target r = do
  guard (same_status r.status reservation_pending) reservation_transition
  for_each (settle_item (is_release target) id) (sort_by_product r.items)
  statement db_error (update_status id target)
  pure (record r { status = target })

unfoldable pub transition_body : String → ReservationStatus → Action Reservation
transition_body id target = do
  found ← query db_error (λ t. find (with_id id) t.reservations)
  r ← or_raise found reservation_not_found
  if same_status r.status target then pure r else settle id target r

-- `transition`
unfoldable pub transition : String → ReservationStatus → Action Reservation
unfolding trim_space
transition reservation_id target =
    let id = trim_space reservation_id in
    if is_empty id
    then raise reservation_not_found
    else transaction db_error (transition_body id target)

-- `Confirm`
unfoldable pub confirm_reservation : String → Action Reservation
confirm_reservation id = transition id reservation_confirmed

-- `Release`
unfoldable pub release_reservation : String → Action Reservation
release_reservation id = transition id reservation_released
