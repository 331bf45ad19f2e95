-- ===== src/Catalog/Behaviour.antt =====
-- What the operations of internal/catalogsvc/catalog.go do to the products that it answers with.
use Prim.Native.String.{String}
use go_order_management_syst.Prelude.{
  ℕ, ◌-◌, ◌≤◌, ◌<◌, ◌≡◌, refl, sym, subst, List, [], ◌∷◌, Option, none, some, arith, length, take,
  ◌==◌, if◌then◌else◌, zero, suc,
}
use go_order_management_syst.Prelude.Int64.{Int64, wrapping_mul}
use go_order_management_syst.Prelude.Text.{trim_space, parse_positive_int}
use go_order_management_syst.Database.{Db, ok, statement, query, or_raise, continue}
use go_order_management_syst.Database.Ensures.{
  Ensures, Ensures-bind, Ensures-statement, Ensures-guard,
}
use go_order_management_syst.Database.Outcome.{Outcome}
use go_order_management_syst.Database.Table.{find, select}
use go_order_management_syst.Database.Page.{page_of, size_or_default, page_or_first}
use go_order_management_syst.Web.{success}
use go_order_management_syst.Catalog.{
  Product, Tables, of_status, has_id, new_product, create_product, create, get, products_of, list,
  with_status,
}
use go_order_management_syst.Catalog.Handlers.{Listed, handle_list}

-- A database with these tables, of which no statement fails.
abbrev pub healthy : Tables → Db Tables
healthy t = record { tables = t; faults = [] }

-- What is known of a product that was created.
abbrev pub IsCreated : String → String → Int64 → Product → Tables → Type 0
IsCreated name description price_fen p t =
    (p ≡ record (new_product (trim_space name) (trim_space description) price_fen) { id = p.id })
    × (get p.id (healthy t) ≡ (ok p, healthy t))

create_product-IsCreated :
    (name description : String) (price_fen : Int64) (p : Product) (t t' : Tables)
    → create_product (new_product (trim_space name) (trim_space description) price_fen) t
      ≡ some (p, t')
    → IsCreated name description price_fen p t'
unfolding create_product get query statement or_raise continue
create_product-IsCreated name description price_fen p t t' e = (ground arith, ground arith)

create-Ensures :
    (name description : String) (price_fen : Int64) (db : Db Tables)
    → Ensures
        (λ p t. IsCreated name description price_fen p t)
        (create name description price_fen db)
unfolding create
create-Ensures name description price_fen db =
    Ensures-bind {Q = λ _ _. Unit {0}} (Ensures-guard _ _ db λ _. tt) λ _ db1 _.
      Ensures-statement _ _ db1
        λ p t e. create_product-IsCreated name description price_fen p db1.tables t e

-- A product that was created is off sale, has the trimmed texts and the price of the request, and is
-- what `Get` answers for its id, if no statement fails.
pub create-get :
    (name description : String) (price_fen : Int64) (db db' : Db Tables) (p : Product)
    → create name description price_fen db ≡ (ok p, db')
    → (p ≡ record (new_product (trim_space name) (trim_space description) price_fen) { id = p.id })
      × (get p.id (healthy db'.tables) ≡ (ok p, healthy db'.tables))
create-get name description price_fen db db' p e =
    let ensured : Ensures (λ p t. IsCreated name description price_fen p t) (ok p, db') =
      subst (Ensures (λ p t. IsCreated name description price_fen p t)) e
        (create-Ensures name description price_fen db) in
    ensured.success

abbrev pub marked : Int64 → Option Product → Option Product
marked status none = none
marked status (some p) = some (with_status status p)

-- The product with this id has the status, and all others are as they were.
abbrev pub IsMarked : Int64 → Int64 → Tables → Tables → Type 0
IsMarked id status before t =
    (x : Int64)
    → find (has_id x) t.products ≡ (
        if id == x
        then marked status (find (has_id x) before.products)
        else find (has_id x) before.products)

take-length : {A : Type 0} (n : ℕ) (xs : List A) → length (take n xs) ≤ n
take-length zero xs = omega arith
take-length (suc n) [] = omega arith
take-length (suc n) (x ∷ xs) = omega (arith, take-length n xs)

-- A listing without a status filter, of which no statement fails, that is asked for pages of more than
-- 100 products is answered with the status 200, says that its pages have that size, and holds 20
-- products at most.
pub list_reports_size :
    (skip : Int64 → List Product → List Product) (page size : String) (n : ℕ) (t : Tables)
    → parse_positive_int size 20 ≡ n
    → 100 < n
    → (r : Listed) × (handle_list skip "" page size (healthy t) ≡ (success 200 r, healthy t))
      × (r.page_size ≡ n)
      × (length r.products ≤ 20)
unfolding handle_list list query statement continue page_of trim_space
list_reports_size skip page size n t parsed large =
    let default : size_or_default n ≡ 20 = ground arith in
    let rows =
      skip (wrapping_mul (page_or_first (parse_positive_int page 1) - 1) (size_or_default n))
        (products_of none t) in
    (
      record {
        products = take (size_or_default n) rows;
        total = length (select (of_status none) t.products);
        page = parse_positive_int page 1;
        page_size = n;
      },
      rw parsed refl,
      refl,
      subst (λ (s : ℕ). length (take s rows) ≤ 20) (sym default) (take-length 20 rows),
    )
