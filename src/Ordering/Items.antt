-- ===== src/Ordering/Items.antt =====
-- `resolveItems` of internal/ordersvc/order.go. The catalog service is a parameter: its answer for
-- each product id.
pub mod Total
use Prim.Native.String.{String}
use go_order_management_syst.Prelude.{
  ℕ, ◌+◌, ◌*◌, ◌/◌, Bool, not, ◌&&◌, ◌||◌, List, [], ◌∷◌, ltb, ◌==◌, if◌then◌else◌, length,
}
use go_order_management_syst.Prelude.Int64.{Int64, is_positive, wrapping_add}
use go_order_management_syst.Database.{Result, ok, err}
use go_order_management_syst.Ordering.Store.{
  RemoteError, Error, OrderItem, invalid_order_request, product_unavailable, remote_error,
  divide_by_zero,
}

-- The fields of `ProductView` that the code reads.
pub record Product : Type 0 where
  pub id : Int64
  pub name : String
  pub price_fen : Int64
  pub status : Int64

abbrev pub Catalog : Type 0
Catalog = Int64 → Result RemoteError Product

-- `CreateOrderItemRequest`, and `ReservationItem`.
pub record ItemRequest : Type 0 where
  pub product_id : Int64
  pub quantity : Int64

-- `quantities[item.ProductID] += item.Quantity`, on the entries in ascending order of their ids, the
-- order in which the second loop takes them.
unfoldable pub add_quantity : ItemRequest → List ItemRequest → List ItemRequest
add_quantity item [] = item ∷ []
add_quantity item (x ∷ xs) =
    let rest = add_quantity item xs in
    if x.product_id == item.product_id
    then record x { quantity = wrapping_add x.quantity item.quantity } ∷ xs
    else if ltb item.product_id x.product_id
    then item ∷ x ∷ xs
    else x ∷ rest

unfoldable pub collect : List ItemRequest → List ItemRequest → Result Error (List ItemRequest)
collect quantities [] = ok quantities
collect quantities (item ∷ items) =
    let rest = collect (add_quantity item quantities) items in
    if is_positive item.product_id && is_positive item.quantity
    then rest
    else err invalid_order_request

-- The items of the order, those of the reservation, and the total.
pub record Resolved : Type 0 where
  pub items : List OrderItem
  pub reserve_items : List ItemRequest
  pub total : Int64

abbrev pub nothing_resolved : Int64 → Resolved
nothing_resolved total = record { items = []; reserve_items = []; total = total }

abbrev pub order_item : Int64 → Product → OrderItem
order_item quantity p = record {
  order_id = 0;
  product_id = p.id;
  product_name = p.name;
  price_fen = p.price_fen;
  quantity = quantity;
}

abbrev pub with_item : Int64 → Product → Result Error Resolved → Result Error Resolved
with_item quantity p (err e) = err e
with_item quantity p (ok r) = ok (record r {
  items = order_item quantity p ∷ r.items;
  reserve_items = record { product_id = p.id; quantity = quantity } ∷ r.reserve_items;
})

-- `price > (1<<63-1)/quantity` for a positive price: the quotient by a negative number is at most 0.
abbrev pub price_exceeds : Int64 → Int64 → Bool
price_exceeds price quantity =
    not (is_positive quantity) || ltb (9223372036854775807 / quantity) price

-- One product of the second loop, before the total is increased. The test of the total is only
-- reached for a positive quantity, and the total is never negative.
unfoldable pub check_item : Int64 → Int64 → Product → Result Error Int64
check_item quantity total p =
    if not (p.status == 1) || not (is_positive p.price_fen)
    then err product_unavailable
    else if quantity == 0
    then err divide_by_zero
    else if price_exceeds p.price_fen quantity
        || ltb 9223372036854775807 (total + p.price_fen * quantity)
    then err invalid_order_request
    else ok (total + p.price_fen * quantity)

abbrev pub with_remote : Result RemoteError Product → Result Error Product
with_remote (err e) = err (remote_error e)
with_remote (ok p) = ok p

-- `if err != nil { return err }`
abbrev pub and_then : {A B : Type 0} → Result Error A → (A → Result Error B) → Result Error B
and_then (err e) k = err e
and_then (ok a) k = k a

-- The second loop.
unfoldable pub price_items : Catalog → Int64 → List ItemRequest → Result Error Resolved
unfolding check_item
price_items catalog total [] = ok (nothing_resolved total)
price_items catalog total (x ∷ xs) = and_then (with_remote (catalog x.product_id)) λ p.
    and_then (check_item x.quantity total p)
      λ total'. with_item x.quantity p (price_items catalog total' xs)

unfoldable pub resolve_items : Catalog → List ItemRequest → Result Error Resolved
unfolding collect price_items
resolve_items catalog requested =
    if length requested == 0 || ltb 100 (length requested)
    then err invalid_order_request
    else and_then (collect [] requested) (price_items catalog 0)
