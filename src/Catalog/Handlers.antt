-- ===== src/Catalog/Handlers.antt =====
-- The handlers of internal/catalogsvc/catalog.go, behind their authorization. A request body is what
-- it was parsed to, if it could be.
use Prim.Native.String.{String}
use go_order_management_syst.Prelude.{ℕ, List, Option, none, some, if◌then◌else◌}
use go_order_management_syst.Prelude.Int64.{Int64}
use go_order_management_syst.Prelude.Text.{
  trim_space, is_empty, parse_int, parse_positive_int, parse_id,
}
use go_order_management_syst.Database.{Db, Result, ok, err}
use go_order_management_syst.Web.{Response, success, failure, internal_success, internal_failure}
use go_order_management_syst.Catalog.{
  Product, Tables, Error, product_not_found, invalid_product, db_error, product_status_on_sale,
  product_status_off_sale, create, get, list, set_status,
}

pub record CreateRequest : Type 0 where
  pub name : String
  pub description : String
  pub price_fen : Int64

-- A handler's answer and the database after it.
abbrev pub Handler : Type 0 → Type 0
Handler A = Db Tables → Response A × Db Tables

abbrev pub answer_created : Result Error Product × Db Tables → Response Product × Db Tables
answer_created (ok p, db) = (success 201 p, db)
answer_created (err e, db) = (failure 400 40002, db)

unfoldable pub handle_create : Option CreateRequest → Handler Product
handle_create none db = (failure 400 40001, db)
handle_create (some req) db = answer_created (create req.name req.description req.price_fen db)

-- The body of a listing.
pub record Listed : Type 0 where
  pub products : List Product
  pub total : ℕ
  pub page : Int64
  pub page_size : Int64

abbrev pub answer_listed :
    Int64 → Int64 → Result Error (List Product × ℕ) × Db Tables → Response Listed × Db Tables
answer_listed page size (ok (products, total), db) =
    (success 200 (record { products = products; total = total; page = page; page_size = size }), db)
answer_listed page size (err e, db) = (failure 500 50001, db)

abbrev pub list_by :
    (Int64 → List Product → List Product) → Option Int64 → Int64 → Int64 → Handler Listed
list_by skip status page size db = answer_listed page size (list skip status page size db)

-- The query parameters `status`, `page` and `page_size`.
unfoldable pub handle_list :
    (Int64 → List Product → List Product) → String → String → String → Handler Listed
handle_list skip status page size db =
    if is_empty (trim_space status)
    then list_by skip none (parse_positive_int page 1) (parse_positive_int size 20) db
    else elim (parse_int 127 (trim_space status)) [
      | none ↦ (failure 400 40003, db)
      | some s ↦ list_by skip (some s) (parse_positive_int page 1) (parse_positive_int size 20) db
    ]

abbrev pub answer_found : Result Error Product × Db Tables → Response Product × Db Tables
answer_found (ok p, db) = (success 200 p, db)
answer_found (err product_not_found, db) = (failure 404 40401, db)
answer_found (err invalid_product, db) = (failure 500 50002, db)
answer_found (err db_error, db) = (failure 500 50002, db)

unfoldable pub handle_get : String → Handler Product
handle_get raw db = elim (parse_id raw) [
  | none ↦ (failure 400 40004, db)
  | some id ↦ answer_found (get id db)
]

abbrev pub answer_internal : Result Error Product × Db Tables → Response Product × Db Tables
answer_internal (ok p, db) = (internal_success 200 p, db)
answer_internal (err product_not_found, db) = (internal_failure 404, db)
answer_internal (err invalid_product, db) = (internal_failure 500, db)
answer_internal (err db_error, db) = (internal_failure 500, db)

unfoldable pub handle_internal_get : String → Handler Product
handle_internal_get raw db = elim (parse_id raw) [
  | none ↦ (internal_failure 400, db)
  | some id ↦ answer_internal (get id db)
]

abbrev pub answer_status :
    Int64 → Int64 → Result Error (Unit {0}) × Db Tables → Response (Int64 × Int64) × Db Tables
answer_status id status (ok u, db) = (success 200 (id, status), db)
answer_status id status (err product_not_found, db) = (failure 404 40401, db)
answer_status id status (err invalid_product, db) = (failure 500 50003, db)
answer_status id status (err db_error, db) = (failure 500 50003, db)

unfoldable pub handle_set_status : Int64 → String → Handler (Int64 × Int64)
handle_set_status status raw db = elim (parse_id raw) [
  | none ↦ (failure 400 40004, db)
  | some id ↦ answer_status id status (set_status id status db)
]

unfoldable pub handle_on_sale : String → Handler (Int64 × Int64)
unfolding handle_set_status
handle_on_sale raw = handle_set_status product_status_on_sale raw

unfoldable pub handle_off_sale : String → Handler (Int64 × Int64)
unfolding handle_set_status
handle_off_sale raw = handle_set_status product_status_off_sale raw
