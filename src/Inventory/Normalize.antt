-- ===== src/Inventory/Normalize.antt =====
-- `normalizeItems` of internal/inventorysvc/inventory.go.
pub mod Merge
use go_order_management_syst.Prelude.{
  Bool, ◌||◌, ◌&&◌, List, [], ◌∷◌, ltb, ◌==◌, if◌then◌else◌, length,
}
use go_order_management_syst.Prelude.Int64.{Int64, is_positive, wrapping_add}
use go_order_management_syst.Database.{Result, ok, err}
use go_order_management_syst.Inventory.Store.{Error, invalid_inventory_amount}

pub record ItemRequest : Type 0 where
  pub product_id : Int64
  pub quantity : Int64

-- `quantities[item.ProductID] += item.Quantity`
unfoldable pub add_quantity : ItemRequest → List ItemRequest → List ItemRequest
add_quantity item [] = item ∷ []
add_quantity item (x ∷ xs) =
    if x.product_id == item.product_id
    then record x { quantity = wrapping_add x.quantity item.quantity } ∷ xs
    else x ∷ add_quantity item xs

abbrev pub is_valid_item : ItemRequest → Bool
is_valid_item item = is_positive item.product_id && is_positive item.quantity

-- The loop over the requested items, on the map of quantities so far.
unfoldable pub collect : List ItemRequest → List ItemRequest → Result Error (List ItemRequest)
collect quantities [] = ok quantities
collect quantities (item ∷ items) =
    let rest = collect (add_quantity item quantities) items in
    if is_valid_item item then rest else err invalid_inventory_amount

-- `sort.Slice` by product id. The ids are positive.
unfoldable pub insert_item : ItemRequest → List ItemRequest → List ItemRequest
insert_item item [] = item ∷ []
insert_item item (x ∷ xs) =
    if ltb item.product_id x.product_id then item ∷ x ∷ xs else x ∷ insert_item item xs

unfoldable pub sort_items : List ItemRequest → List ItemRequest
unfolding insert_item
sort_items [] = []
sort_items (x ∷ xs) = insert_item x (sort_items xs)

abbrev pub sorted : Result Error (List ItemRequest) → Result Error (List ItemRequest)
sorted (ok items) = ok (sort_items items)
sorted (err e) = err e

unfoldable pub normalize_items : List ItemRequest → Result Error (List ItemRequest)
unfolding collect
normalize_items items =
    if length items == 0 || ltb 100 (length items)
    then err invalid_inventory_amount
    else sorted (collect [] items)
