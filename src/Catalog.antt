-- ===== src/Catalog.antt =====
-- The catalog service, internal/catalogsvc/catalog.go.
pub mod Handlers
pub mod Behaviour
mod Tests
use Prim.Native.String.{String}
use go_order_management_syst.Prelude.{
  ℕ, Bool, not, ◌||◌, List, [], ◌∷◌, Option, none, some, ltb, ◌==◌, length, if◌then◌else◌,
}
use go_order_management_syst.Prelude.Int64.{Int64, is_positive, wrapping_add}
use go_order_management_syst.Prelude.Text.{trim_space, is_empty, byte_length}
use go_order_management_syst.Database.{Action, ◌>>=◌, ◌>>◌, pure, guard, or_raise, statement, query}
use go_order_management_syst.Database.Table.{find, modify, select}
use go_order_management_syst.Database.Page.{page_of, order_desc}

pub record Product : Type 0 where
  pub id : Int64
  pub name : String
  pub description : String
  pub price_fen : Int64
  pub status : Int64

abbrev pub product_status_on_sale : Int64
product_status_on_sale = 1

abbrev pub product_status_off_sale : Int64
product_status_off_sale = 2

pub record Tables : Type 0 where
  pub products : List Product
  -- AUTO_INCREMENT
  pub next_id : Int64

pub data Error : Type 0 where
  product_not_found invalid_product db_error : Error

abbrev pub Statements : Type 0 → Type 0
Statements A = Action Tables Error A

abbrev pub has_id : Int64 → Product → Bool
has_id id p = p.id == id

-- `s.db.Create(product)`
unfoldable pub create_product : Product → Tables → Option (Product × Tables)
create_product p t =
    let stored : Product = record p { id = t.next_id } in
    some (stored, record t { products = stored ∷ t.products; next_id = wrapping_add t.next_id 1 })

abbrev pub new_product : String → String → Int64 → Product
new_product name description price_fen = record {
  id = 0;
  name = name;
  description = description;
  price_fen = price_fen;
  status = product_status_off_sale;
}

-- The part of `Create` behind the trimming.
unfoldable pub create_trimmed : String → String → Int64 → Statements Product
create_trimmed name description price_fen = do
  guard
      (not (
        is_empty name
        || ltb 100 (byte_length name)
        || ltb 500 (byte_length description)
        || not (is_positive price_fen)))
      invalid_product
  statement db_error (create_product (new_product name description price_fen))

-- `Create`
unfoldable pub create : String → String → Int64 → Statements Product
unfolding create_trimmed
create name description price_fen =
    create_trimmed (trim_space name) (trim_space description) price_fen

-- `Get`
unfoldable pub get : Int64 → Statements Product
get id = do
  found ← query db_error (λ t. find (has_id id) t.products)
  or_raise found product_not_found

abbrev pub of_status : Option Int64 → Product → Bool
of_status none p = Bool.true
of_status (some status) p = p.status == status

-- The rows that `List` counts and pages.
abbrev pub products_of : Option Int64 → Tables → List Product
products_of status t = order_desc (λ p. p.id) (select (of_status status) t.products)

-- `List`
unfoldable pub list :
    (Int64 → List Product → List Product)
    → Option Int64
    → Int64
    → Int64
    → Statements (List Product × ℕ)
list skip status page size = do
  total ← query db_error (λ t. length (select (of_status status) t.products))
  products ← query db_error (λ t. page_of skip page size (products_of status t))
  pure (products, total)

abbrev pub with_status : Int64 → Product → Product
with_status status p = record p { status = status }

-- `Update("status", status)`: the count of the rows that were updated.
unfoldable pub update_status : Int64 → Int64 → Tables → Option (ℕ × Tables)
update_status id status t = elim (find (has_id id) t.products) [
  | none ↦ some (0, t)
  | some p ↦ some (1, record t { products = modify (has_id id) (with_status status) t.products })
]

-- `SetStatus`
unfoldable pub set_status : Int64 → Int64 → Statements (Unit {0})
set_status id status = do
  rows ← statement db_error (update_status id status)
  guard (not (rows == 0)) product_not_found
