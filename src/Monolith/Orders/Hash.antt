-- ===== src/Monolith/Orders/Hash.antt =====
-- `buildCreateOrderRequestHash` and `validateDuplicateItems`. The JSON encoding of the sorted items
-- and its SHA-256 are one parameter, the digest.
pub mod Permuted
use Prim.Native.String.{String}
use go_order_management_syst.Prelude.{Bool, true, false, ◌||◌, List, [], ◌∷◌, ◌==◌, if◌then◌else◌}
use go_order_management_syst.Prelude.Int64.{Int64, signed_ltb}

pub record ItemRequest : Type 0 where
  pub product_id : Int64
  pub quantity : Int64

-- The comparison that `sort.Slice` is given.
abbrev pub comes_before : ItemRequest → ItemRequest → Bool
comes_before x y =
    if x.product_id == y.product_id
    then signed_ltb x.quantity y.quantity
    else signed_ltb x.product_id y.product_id

unfoldable pub insert_item : ItemRequest → List ItemRequest → List ItemRequest
insert_item item [] = item ∷ []
insert_item item (x ∷ xs) = if comes_before x item then x ∷ insert_item item xs else item ∷ x ∷ xs

unfoldable pub sort_items : List ItemRequest → List ItemRequest
unfolding insert_item
sort_items [] = []
sort_items (x ∷ xs) = insert_item x (sort_items xs)

unfoldable pub request_hash : (List ItemRequest → String) → List ItemRequest → String
unfolding sort_items
request_hash digest items = digest (sort_items items)

abbrev pub seen : Int64 → List Int64 → Bool
seen id [] = false
seen id (x ∷ xs) = x == id || seen id xs

-- The loop of `validateDuplicateItems`, with the ids seen so far.
unfoldable pub has_duplicate : List Int64 → List ItemRequest → Bool
has_duplicate ids [] = false
has_duplicate ids (item ∷ items) =
    let rest = has_duplicate (item.product_id ∷ ids) items in
    if seen item.product_id ids then true else rest
