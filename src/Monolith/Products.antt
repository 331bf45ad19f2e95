-- ===== src/Monolith/Products.antt =====
-- internal/service/product_service.go with its statements of internal/dao/product_dao.go, and the
-- cache of internal/bizcache/product_cache.go. Redis may be absent, and each of its answers may fail;
-- an entry that was stored is read back as it was.
pub mod Cached
pub mod Coherence
mod Race
mod Tests
use Prim.Native.String.{String}
use go_order_management_syst.Prelude.{
  ℕ, ◌-◌, Bool, true, false, not, List, [], ◌∷◌, Option, none, some, ltb, ◌==◌, length, take,
  if◌then◌else◌,
}
use go_order_management_syst.Prelude.Int64.{Int64, is_positive, wrapping_add, wrapping_mul}
use go_order_management_syst.Prelude.Text.{trim_space, is_empty, byte_length}
use go_order_management_syst.Database.{
  Db, Result, ok, err, faulty, later, ◌>>=◌, ◌>>◌, pure, guard, or_raise, statement, query,
}
use go_order_management_syst.Database.Table.{find, modify, exists, select}
use go_order_management_syst.Database.Page.{order_desc}
use go_order_management_syst.Monolith.Store.{
  Product, ProductStatus, on_sale, off_sale, Tables, Error, invalid_product_price,
  invalid_product_name, invalid_product_description, product_not_found, product_on_sale_failed,
  product_off_sale_failed, db_error, same_product_status, has_product_id,
}
use go_order_management_syst.Monolith.Orders.Create.{Statements}

pub record CreateRequest : Type 0 where
  pub name : String
  pub description : String
  pub price_fen : Int64

-- `CreateProduct` of the dao, with the id that the database gives.
unfoldable pub create_product_row : Int64 → Product → Tables → Option (Product × Tables)
create_product_row id p t =
    let stored : Product = record p { id = id } in
    if exists (has_product_id id) t.products
    then none
    else some (stored, record t { products = stored ∷ t.products })

abbrev pub new_product : CreateRequest → Product
new_product req = record {
  id = 0;
  name = trim_space req.name;
  description = trim_space req.description;
  price_fen = req.price_fen;
  status = off_sale;
}

-- `CreateProduct`
unfoldable pub create_product : Int64 → CreateRequest → Statements Product
create_product id req = do
  guard (is_positive req.price_fen) invalid_product_price
  guard (not (is_empty (trim_space req.name))) invalid_product_name
  guard (not (ltb 500 (byte_length (trim_space req.description)))) invalid_product_description
  statement db_error (create_product_row id (new_product req))

abbrev pub with_status : ProductStatus → Product → Product
with_status status p = record p { status = status }

-- `UpdateProductStatus`
unfoldable pub update_product_status : Int64 → ProductStatus → Tables → Option (Unit {0} × Tables)
update_product_status id status t =
    some (tt, record t { products = modify (has_product_id id) (with_status status) t.products })

abbrev pub of_status : Option ProductStatus → Product → Bool
of_status none p = true
of_status (some status) p = same_product_status p.status status

abbrev pub products_of : Option ProductStatus → Tables → List Product
products_of status t = order_desc (λ p. p.id) (select (of_status status) t.products)

-- `ListProducts`: all products, or a page of them and their number.
unfoldable pub list_products :
    (Int64 → List Product → List Product)
    → Option ProductStatus
    → Int64
    → Int64
    → Statements (List Product × ℕ)
list_products skip status page size =
    if is_positive size
    then (do
      total ← query db_error (λ t. length (select (of_status status) t.products))
      products ← query db_error (λ t. take size (
          skip (wrapping_mul (wrapping_add page 18446744073709551615) size) (products_of status t)))
      pure (products, total))
    else (do
      products ← query db_error (λ t. products_of status t)
      pure (products, if size == 0 then length products else 0))

-- Redis, with the answers that it will give: `true` is one that fails.
pub record Cache : Type 0 where
  pub connected : Bool
  pub entries : List Product
  pub faults : List Bool

abbrev pub drop_entry : Int64 → List Product → List Product
drop_entry id [] = []
drop_entry id (p ∷ ps) = if p.id == id then drop_entry id ps else p ∷ drop_entry id ps

-- `GetProductDetail`
unfoldable pub get_product_detail : Int64 → Cache → Option Product × Cache
get_product_detail id c = if not c.connected then (none, c) else (
  if faulty c.faults then none else find (has_product_id id) c.entries,
  record c { faults = later c.faults },
)

-- `SetProductDetail`
unfoldable pub set_product_detail : Product → Cache → Cache
set_product_detail p c = if not c.connected then c else record c {
  entries = if faulty c.faults then c.entries else p ∷ drop_entry p.id c.entries;
  faults = later c.faults;
}

-- `DeleteProductDetailCache`
unfoldable pub delete_product_detail : Int64 → Cache → Cache
delete_product_detail id c = if not c.connected then c else record c {
  entries = if faulty c.faults then c.entries else drop_entry id c.entries;
  faults = later c.faults;
}

-- The service's database and cache.
pub record Shop : Type 0 where
  pub db : Db Tables
  pub cache : Cache

unfoldable pub read_product : Int64 → Statements Product
read_product id = do
  found ← query db_error (λ t. find (has_product_id id) t.products)
  or_raise found product_not_found

-- What `GetProductByID` has before it sets the cache.
pub data Fetched : Type 0 where
  cached fetched : Product → Fetched
  not_fetched : Error → Fetched

abbrev pub read_missed : Cache → Result Error Product × Db Tables → Fetched × Shop
read_missed c (ok p, db) = (fetched p, record { db = db; cache = c })
read_missed c (err e, db) = (not_fetched e, record { db = db; cache = c })

abbrev pub or_read : Int64 → Db Tables → Option Product × Cache → Fetched × Shop
or_read id db (some p, c) = (cached p, record { db = db; cache = c })
or_read id db (none, c) = read_missed c (read_product id db)

-- `GetProductByID` up to the read of the database. Other calls may run before it goes on.
unfoldable pub begin_get_product : Int64 → Shop → Fetched × Shop
unfolding get_product_detail read_product
begin_get_product id s = or_read id s.db (get_product_detail id s.cache)

-- The rest of `GetProductByID`, on the cache as it is then.
abbrev pub end_get_product : Fetched × Shop → Result Error Product × Shop
end_get_product (cached p, s) = (ok p, s)
end_get_product (fetched p, s) = (ok p, record { db = s.db; cache = set_product_detail p s.cache })
end_get_product (not_fetched e, s) = (err e, s)

-- `GetProductByID`, with no other call in between.
unfoldable pub get_product : Int64 → Shop → Result Error Product × Shop
unfolding begin_get_product set_product_detail
get_product id s = end_get_product (begin_get_product id s)

unfoldable pub change_found : ProductStatus → Error → Product → Statements Bool
change_found status failed product =
    if same_product_status product.status status
    then pure false
    else statement failed (update_product_status product.id status) >> pure true

-- The statements of `OnSaleProduct` and `OffSaleProduct`: whether the status was changed.
unfoldable pub change_status : ProductStatus → Error → Int64 → Statements Bool
unfolding read_product change_found
change_status status failed id = do product ← read_product id; change_found status failed product

abbrev pub drop_cached :
    Int64 → Cache → Result Error Bool × Db Tables → Result Error (Unit {0}) × Shop
drop_cached id c (ok true, db) = (ok tt, record { db = db; cache = delete_product_detail id c })
drop_cached id c (ok false, db) = (ok tt, record { db = db; cache = c })
drop_cached id c (err e, db) = (err e, record { db = db; cache = c })

-- `OnSaleProduct`
unfoldable pub on_sale_product : Int64 → Shop → Result Error (Unit {0}) × Shop
unfolding change_status delete_product_detail
on_sale_product id s = drop_cached id s.cache (change_status on_sale product_on_sale_failed id s.db)

-- `OffSaleProduct`
unfoldable pub off_sale_product : Int64 → Shop → Result Error (Unit {0}) × Shop
unfolding change_status delete_product_detail
off_sale_product id s =
    drop_cached id s.cache (change_status off_sale product_off_sale_failed id s.db)
