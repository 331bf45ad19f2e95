-- ===== src/Ordering/Handlers.antt =====
-- The handlers of internal/ordersvc/order.go, behind their authorization. The authenticated user is
-- the value that the middleware stored, if it is a number; a request body is what it was parsed to, if
-- it could be.
use Prim.Native.String.{String}
use go_order_management_syst.Prelude.{ℕ, false, List, Option, none, some, if◌then◌else◌}
use go_order_management_syst.Prelude.Int64.{Int64, is_positive}
use go_order_management_syst.Prelude.Text.{parse_id, parse_positive_int}
use go_order_management_syst.Database.{Db, Result, ok, err}
use go_order_management_syst.Web.{Response, success, failure, internal_success, internal_failure}
use go_order_management_syst.Ordering.Store.{
  Order, Tables, RemoteError, unreachable, status, Error, order_not_found, invalid_order_request,
  invalid_order_state, product_unavailable, compensation_required, state_mismatch, lease_lost,
  reservation_failed, remote_error, divide_by_zero, release_failed, db_error,
}
use go_order_management_syst.Ordering.Payment.{Statements, pay, finish_order}
use go_order_management_syst.Ordering.Cancellation.{cancel, timeout_cancel}
use go_order_management_syst.Ordering.Creation.{CreateRequest}
use go_order_management_syst.Ordering.Listing.{get_order, list}

abbrev pub Handler : Type 0 → Type 0
Handler A = Db Tables → Response A × Db Tables

-- `writeOrderError`. A panic is answered by the recovery of the web framework.
unfoldable pub write_order_error : {A : Type 0} → Error → Response A
write_order_error order_not_found = failure 404 40421
write_order_error invalid_order_request = failure 400 40021
write_order_error invalid_order_state = failure 409 40921
write_order_error product_unavailable = failure 409 40922
write_order_error (reservation_failed e) = failure 409 40922
write_order_error compensation_required = failure 503 50321
write_order_error (remote_error (status s)) = failure 502 50221
write_order_error (remote_error unreachable) = failure 500 50021
write_order_error state_mismatch = failure 500 50021
write_order_error lease_lost = failure 500 50021
write_order_error (release_failed e r) = failure 500 50021
write_order_error db_error = failure 500 50021
write_order_error divide_by_zero = internal_failure 500

abbrev pub answer_order : ℕ → Result Error Order × Db Tables → Response Order × Db Tables
answer_order s (ok o, db) = (success s o, db)
answer_order s (err e, db) = (write_order_error e, db)

-- `currentUserID`
abbrev pub current_user_id : Option Int64 → Option Int64
current_user_id none = none
current_user_id (some id) = if is_positive id then some id else none

-- `requestOrderIDs`
abbrev pub request_order_ids : Option Int64 → String → Option (Int64 × Int64)
request_order_ids user raw = elim (current_user_id user) [
  | none ↦ none
  | some user_id ↦ elim (parse_id raw) [ none ↦ none | some order_id ↦ some (user_id, order_id) ]
]

abbrev pub create_for :
    (Int64 → CreateRequest → Statements Order) → Int64 → Option CreateRequest → Handler Order
create_for create user_id none db = (failure 400 40021, db)
create_for create user_id (some req) db = answer_order 201 (create user_id req db)

-- `create`
unfoldable pub handle_create :
    (Int64 → CreateRequest → Statements Order) → Option Int64 → Option CreateRequest → Handler Order
handle_create create user req db = elim (current_user_id user) [
  | none ↦ (failure 401 40121, db)
  | some user_id ↦ create_for create user_id req db
]

-- `transition`, and `get`, which differ in their action.
unfoldable pub handle_transition :
    (Int64 → Int64 → Statements Order) → Option Int64 → String → Handler Order
handle_transition action user raw db = elim (request_order_ids user raw) [
  | none ↦ (failure 400 40022, db)
  | some (user_id, order_id) ↦ answer_order 200 (action user_id order_id db)
]

unfoldable pub handle_get : Option Int64 → String → Handler Order
unfolding handle_transition
handle_get = handle_transition λ user_id order_id. get_order user_id order_id

unfoldable pub handle_cancel :
    ℕ → (String → Result RemoteError (Unit {0})) → Option Int64 → String → Handler Order
unfolding handle_transition
handle_cancel now release =
    handle_transition λ user_id order_id. cancel now release user_id order_id false

unfoldable pub handle_pay :
    ℕ → (String → Result RemoteError (Unit {0})) → Option Int64 → String → Handler Order
unfolding handle_transition
handle_pay now confirm = handle_transition λ user_id order_id. pay now confirm user_id order_id

unfoldable pub handle_finish : ℕ → Option Int64 → String → Handler Order
unfolding handle_transition
handle_finish now = handle_transition λ user_id order_id. finish_order now user_id order_id

-- The body of a listing.
pub record Listed : Type 0 where
  pub orders : List Order
  pub total : ℕ
  pub page : Int64
  pub page_size : Int64

abbrev pub answer_listed :
    Int64 → Int64 → Result Error (List Order × ℕ) × Db Tables → Response Listed × Db Tables
answer_listed page size (ok (orders, total), db) =
    (success 200 (record { orders = orders; total = total; page = page; page_size = size }), db)
answer_listed page size (err e, db) = (write_order_error e, db)

abbrev pub list_by : (Int64 → List Order → List Order) → Int64 → Int64 → Int64 → Handler Listed
list_by skip user_id page size db = answer_listed page size (list skip user_id page size db)

-- `list`
unfoldable pub handle_list :
    (Int64 → List Order → List Order) → Option Int64 → String → String → Handler Listed
handle_list skip user page size db = elim (current_user_id user) [
  | none ↦ (failure 401 40121, db)
  | some user_id ↦ list_by skip user_id (parse_positive_int page 1) (parse_positive_int size 20) db
]

abbrev pub answer_timeout : Option Error × Db Tables → Response (Unit {0}) × Db Tables
answer_timeout (none, db) = (internal_success 200 tt, db)
answer_timeout (some e, db) = (internal_failure 500, db)

-- `timeoutCancel`
unfoldable pub handle_timeout_cancel :
    ℕ → (String → Result RemoteError (Unit {0})) → String → Handler (Unit {0})
handle_timeout_cancel now release raw db = elim (parse_id raw) [
  | none ↦ (internal_failure 400, db)
  | some order_id ↦ answer_timeout (timeout_cancel now release order_id db)
]
