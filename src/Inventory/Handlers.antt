-- ===== src/Inventory/Handlers.antt =====
-- `ListLogs` and the handlers of internal/inventorysvc/inventory.go, behind their authorization. A
-- request body is what it was parsed to, if it could be.
use Prim.Native.String.{String}
use go_order_management_syst.Prelude.{
  ℕ, Bool, true, false, List, Option, none, some, length, leb, ◌==◌, if◌then◌else◌,
}
use go_order_management_syst.Prelude.Int64.{Int64, is_positive}
use go_order_management_syst.Prelude.Text.{
  trim_space, is_empty, parse_int, parse_positive_int, parse_id,
}
use go_order_management_syst.Database.{Db, Result, ok, err, Action, ◌>>=◌, pure, query}
use go_order_management_syst.Database.Table.{select}
use go_order_management_syst.Database.Page.{page_of}
use go_order_management_syst.Web.{Response, success, failure, internal_success, internal_failure}
use go_order_management_syst.Inventory.Store.{
  Inventory, Reservation, StockLog, Tables, Error, inventory_not_found, insufficient_inventory,
  reservation_not_found, reservation_transition, invalid_inventory_amount, db_error,
}
use go_order_management_syst.Inventory.Service.{
  ReserveRequest, get_inventory, init_inventory, add_inventory, reserve_request,
  confirm_reservation, release_reservation,
}

-- `Where("product_id = ?", *productID)`, if there is one and it is positive
abbrev pub log_of_product : Option Int64 → StockLog → Bool
log_of_product none l = true
log_of_product (some product_id) l =
    if is_positive product_id then l.product_id == product_id else true

-- `ListLogs`: the log is kept newest first.
unfoldable pub list_logs :
    (Int64 → List StockLog → List StockLog)
    → Option Int64
    → Int64
    → Int64
    → Action Tables Error (List StockLog × ℕ)
list_logs skip product_id page size = do
  total ← query db_error (λ t. length (select (log_of_product product_id) t.logs))
  logs ← query db_error (λ t. page_of skip page size (select (log_of_product product_id) t.logs))
  pure (logs, total)

abbrev pub Handler : Type 0 → Type 0
Handler A = Db Tables → Response A × Db Tables

abbrev pub answer_found : Result Error Inventory × Db Tables → Response Inventory × Db Tables
answer_found (ok i, db) = (success 200 i, db)
answer_found (err inventory_not_found, db) = (failure 404 40411, db)
answer_found (err insufficient_inventory, db) = (failure 500 50011, db)
answer_found (err reservation_not_found, db) = (failure 500 50011, db)
answer_found (err reservation_transition, db) = (failure 500 50011, db)
answer_found (err invalid_inventory_amount, db) = (failure 500 50011, db)
answer_found (err db_error, db) = (failure 500 50011, db)

unfoldable pub handle_get : String → Handler Inventory
handle_get raw db = elim (parse_id raw) [
  | none ↦ (failure 400 40011, db)
  | some id ↦ answer_found (get_inventory id db)
]

pub record ChangeRequest : Type 0 where
  pub product_id : Int64
  pub quantity : Int64
  pub stock_quantity : Int64

abbrev pub quantity_of : ChangeRequest → Int64
quantity_of req = if req.quantity == 0 then req.stock_quantity else req.quantity

abbrev pub change_status : Error → ℕ
change_status inventory_not_found = 404
change_status insufficient_inventory = 400
change_status reservation_not_found = 400
change_status reservation_transition = 400
change_status invalid_inventory_amount = 400
change_status db_error = 400

abbrev pub answer_change : Result Error Inventory × Db Tables → Response Inventory × Db Tables
answer_change (ok i, db) = (success 200 i, db)
answer_change (err e, db) = (failure (change_status e) 40013, db)

-- `change`
unfoldable pub handle_change : Bool → Option ChangeRequest → Handler Inventory
handle_change initialize none db = (failure 400 40012, db)
handle_change true (some req) db =
    answer_change (init_inventory req.product_id (quantity_of req) db)
handle_change false (some req) db =
    answer_change (add_inventory req.product_id (quantity_of req) db)

-- The body of a listing.
pub record Listed : Type 0 where
  pub logs : List StockLog
  pub total : ℕ
  pub page : Int64
  pub page_size : Int64

abbrev pub answer_listed :
    Int64 → Int64 → Result Error (List StockLog × ℕ) × Db Tables → Response Listed × Db Tables
answer_listed page size (ok (logs, total), db) =
    (success 200 (record { logs = logs; total = total; page = page; page_size = size }), db)
answer_listed page size (err e, db) = (failure 500 50012, db)

abbrev pub list_by :
    (Int64 → List StockLog → List StockLog) → Option Int64 → Int64 → Int64 → Handler Listed
list_by skip product_id page size db =
    answer_listed page size (list_logs skip product_id page size db)

-- `listLogs`, with the query parameters `product_id`, `page` and `page_size`.
unfoldable pub handle_list_logs :
    (Int64 → List StockLog → List StockLog) → String → String → String → Handler Listed
handle_list_logs skip product_id page size db =
    if is_empty (trim_space product_id)
    then list_by skip none (parse_positive_int page 1) (parse_positive_int size 20) db
    else elim (parse_int 9223372036854775807 (trim_space product_id)) [
      | none ↦ (failure 400 40014, db)
      | some id ↦
          if leb 9223372036854775808 id
          then (failure 400 40014, db)
          else list_by skip (if is_positive id then some id else none) (parse_positive_int page 1)
              (parse_positive_int size 20) db
    ]

abbrev pub reserve_status : Error → ℕ
reserve_status insufficient_inventory = 409
reserve_status inventory_not_found = 409
reserve_status invalid_inventory_amount = 409
reserve_status reservation_not_found = 500
reserve_status reservation_transition = 500
reserve_status db_error = 500

abbrev pub answer_reserve : Result Error Reservation × Db Tables → Response Reservation × Db Tables
answer_reserve (ok r, db) = (internal_success 200 r, db)
answer_reserve (err e, db) = (internal_failure (reserve_status e), db)

unfoldable pub handle_reserve : String → Option ReserveRequest → Handler Reservation
handle_reserve fresh none db = (internal_failure 400, db)
handle_reserve fresh (some req) db = answer_reserve (reserve_request fresh req db)

abbrev pub transition_status : Error → ℕ
transition_status reservation_not_found = 404
transition_status reservation_transition = 409
transition_status insufficient_inventory = 500
transition_status inventory_not_found = 500
transition_status invalid_inventory_amount = 500
transition_status db_error = 500

abbrev pub answer_transition :
    Result Error Reservation × Db Tables → Response Reservation × Db Tables
answer_transition (ok r, db) = (internal_success 200 r, db)
answer_transition (err e, db) = (internal_failure (transition_status e), db)

-- `transition`
unfoldable pub handle_transition : Bool → String → Handler Reservation
handle_transition true id db = answer_transition (confirm_reservation id db)
handle_transition false id db = answer_transition (release_reservation id db)
