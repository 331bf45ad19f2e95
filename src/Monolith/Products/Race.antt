-- ===== src/Monolith/Products/Race.antt =====
-- A read of internal/service/product_service.go that runs while a product is taken off sale.
use go_order_management_syst.Prelude.{◌≡◌, refl, sym, subst, true, List, [], ◌∷◌, none, some, arith}
use go_order_management_syst.Prelude.Int64.{Int64}
use go_order_management_syst.Database.{Result, ok, statement, query, or_raise, continue}
use go_order_management_syst.Database.Table.{find, modify, find_holds, find-modify}
use go_order_management_syst.Monolith.Store.{
  Product, Error, on_sale, off_sale, Tables, has_product_id,
}
use go_order_management_syst.Monolith.Products.{
  Shop, Fetched, fetched, with_status, get_product_detail, set_product_detail,
  delete_product_detail, update_product_status, read_product, begin_get_product, end_get_product,
  get_product, change_found, change_status, off_sale_product, drop_entry,
}

-- A shop where every statement and the cache answer.
abbrev pub answering : Tables → List Product → Shop
answering t entries = record {
  db = record { tables = t; faults = [] };
  cache = record { connected = true; entries = entries; faults = [] };
}

abbrev pub taken_off : Int64 → Tables → Tables
taken_off id t = record t {
  products = modify (has_product_id id) (with_status off_sale) t.products;
}

begun :
    (id : Int64) (t : Tables) (entries : List Product) (p : Product)
    → find (has_product_id id) entries ≡ none
    → find (has_product_id id) t.products ≡ some p
    → begin_get_product id (answering t entries) ≡ (fetched p, answering t entries)
unfolding begin_get_product get_product_detail read_product query or_raise statement continue
begun id t entries p missed found = rw (missed, found) refl

taken_off_lem :
    (id : Int64) (t : Tables) (entries : List Product) (p : Product)
    → find (has_product_id id) t.products ≡ some p
    → p.status ≡ on_sale
    → p.id ≡ id
    → off_sale_product id (answering t entries)
      ≡ (ok tt, answering (taken_off id t) (drop_entry id entries))
unfolding off_sale_product change_status change_found update_product_status delete_product_detail
    read_product query or_raise statement continue
taken_off_lem id t entries p found sells same = rw (found, sells, same) refl

answered_first :
    (id : Int64) (t : Tables) (entries : List Product) (p : Product)
    → has_product_id id p ≡ true
    → (get_product id (answering t (p ∷ entries))).0 ≡ ok p
unfolding get_product begin_get_product get_product_detail
answered_first id t entries p named = rw named refl

-- The end of a read behind the result of `OffSaleProduct`: that succeeded, the table has the product
-- off sale, and the next read answers it as it was read before.
abbrev pub IsStale : Int64 → Product → Fetched → Result Error (Unit {0}) × Shop → Type 0
IsStale id p read (ended, s) =
    (ended ≡ ok tt)
    × (find (has_product_id id) (end_get_product (read, s)).1.db.tables.products
        ≡ some (with_status off_sale p))
    × ((get_product id (end_get_product (read, s)).1).0 ≡ ok p)

-- `OffSaleProduct` in the middle of `GetProductByID`.
abbrev pub GoesStale : Int64 → Product → Fetched × Shop → Type 0
GoesStale id p (read, s) = IsStale id p read (off_sale_product id s)

-- If every statement and Redis answer: a product that is on sale and not cached is read by
-- `GetProductByID`, is taken off sale by `OffSaleProduct` before the read sets the cache, and is then
-- set in the cache as it was read. `OffSaleProduct` succeeds and the table says that the product is
-- off sale, but the next `GetProductByID` answers it as on sale.
pub stale_read_stays :
    (id : Int64) (t : Tables) (entries : List Product) (p : Product)
    → find (has_product_id id) entries ≡ none
    → find (has_product_id id) t.products ≡ some p
    → p.status ≡ on_sale
    → GoesStale id p (begin_get_product id (answering t entries))
unfolding set_product_detail
stale_read_stays id t entries p missed found sells =
    let named = find_holds (has_product_id id) t.products p found in
    let same : p.id ≡ id = ground (arith, named) in
    subst (GoesStale id p) (sym (begun id t entries p missed found)) (
      subst (IsStale id p (fetched p)) (sym (taken_off_lem id t entries p found sells same)) (
        refl,
        find-modify (has_product_id id) (with_status off_sale) t.products p found named,
        answered_first id (taken_off id t) (drop_entry p.id (drop_entry id entries)) p named,
      ))
