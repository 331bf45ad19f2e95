-- ===== src/Ordering/Listing.antt =====
-- `Get` and `List` of internal/ordersvc/order.go, and what the pages of a user's orders are together.
use go_order_management_syst.Prelude.{
  ℕ, false, ◌-◌, ◌*◌, ◌%◌, ◌≤◌, ◌<◌, ◌≡◌, refl, ap, ◌∙◌, ◌&&◌, Bool, true, List, [], length, drop,
  ◌==◌, arith,
}
use go_order_management_syst.Prelude.Int64.{Int64, is_positive, wrapping_mul}
use go_order_management_syst.Database.{
  Db, Result, ok, err, ◌>>=◌, pure, query, or_raise, statement, continue,
}
use go_order_management_syst.Database.Sorted.{
  Descends, count, order_desc-Descends, order_desc-count, select-count, select-length,
}
use go_order_management_syst.Database.Table.{select}
use go_order_management_syst.Database.Page.{
  page_of, pages, order_desc, order_desc-length, pages_all, page_or_first, size_or_default,
}
use go_order_management_syst.Ordering.Store.{
  Order, Tables, Error, order_not_found, db_error, find_order,
}
use go_order_management_syst.Ordering.Payment.{Statements}

-- `Get`
unfoldable pub get_order : Int64 → Int64 → Statements Order
get_order user_id order_id = do
  found ← query db_error (find_order false user_id order_id)
  or_raise found order_not_found

-- `Where("user_id = ?", userID)` and `Order("id DESC")`
abbrev pub orders_of : Int64 → Tables → List Order
orders_of user_id t = order_desc (λ o. o.id) (select (λ o. o.user_id == user_id) t.orders)

unfoldable pub list :
    (Int64 → List Order → List Order) → Int64 → Int64 → Int64 → Statements (List Order × ℕ)
list skip user_id page size = do
  total ← query db_error (λ t. length (select (λ o. o.user_id == user_id) t.orders))
  orders ← query db_error (λ t. page_of skip page size (orders_of user_id t))
  pure (orders, total)

abbrev pub listed : Result Error (List Order × ℕ) → List Order
listed (ok (orders, total)) = orders
listed (err e) = []

abbrev pub healthy : Tables → Db Tables
healthy t = record { tables = t; faults = [] }

-- If no statement fails and the database skips what it is told to skip, then the pages of a valid
-- size, one after the other, once there are enough of them, list the orders by descending ids, and
-- of the orders that meet any condition they list as many as the user has: all orders of this user
-- and no others.
pub list-pages :
    (skip : Int64 → List Order → List Order) (user_id size n : ℕ) (t : Tables)
    → ((offset : ℕ) (rows : List Order)
        → offset < 9223372036854775808
        → skip offset rows ≡ drop offset rows)
    → 0 < size
    → size ≤ 100
    → n * size < 9223372036854775808
    → n < 9223372036854775808
    → length t.orders ≤ n * size
    → let all = pages (λ page. listed (list skip user_id page size (healthy t)).0) n in
      Descends (λ o. o.id) all
      × ((p : Order → Bool) → count p all ≡ count (λ o. o.user_id == user_id && p o) t.orders)
unfolding list query statement continue
list-pages skip user_id size n t skips pos small bound many enough =
    let own = select (λ o. o.user_id == user_id) t.orders in
    let fits : length (orders_of user_id t) ≤ n * size = omega (
      arith,
      order_desc-length (λ o. o.id) own,
      select-length (λ o. o.user_id == user_id) t.orders,
    ) in
    rw
      (pages_all skip size n (orders_of user_id t) (λ offset. skips offset (orders_of user_id t))
        pos small bound many fits)
      (
        order_desc-Descends (λ o. o.id) own,
        λ p.
            order_desc-count p (λ o. o.id) own
            ∙ select-count p (λ o. o.user_id == user_id) t.orders,
      )

first_offset : (size : ℕ) → 0 * size % 18446744073709551616 ≡ 0
first_offset size = let nothing : 0 * size ≡ 0 = omega arith in rw nothing refl

-- A page number that is so large that the offset wraps around to zero is answered with the first
-- page, whatever statements fail.
pub list_wraps :
    (skip : Int64 → List Order → List Order) (user_id page size : ℕ) (db : Db Tables)
    → is_positive page ≡ true
    → 0 < size
    → size ≤ 100
    → (page - 1) * size % 18446744073709551616 ≡ 0
    → list skip user_id page size db ≡ list skip user_id 1 size db
unfolding list page_of
list_wraps skip user_id page size db valid pos small wraps =
    let same_offset : wrapping_mul (page_or_first page - 1) (size_or_default size)
        ≡ wrapping_mul (page_or_first 1 - 1) (size_or_default size) =
      ground (arith, first_offset size, ap (λ x. x) wraps) in
    rw same_offset refl
