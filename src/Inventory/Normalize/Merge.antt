-- ===== src/Inventory/Normalize/Merge.antt =====
-- What `normalizeItems` of internal/inventorysvc/inventory.go promises of the merged items.
use go_order_management_syst.Prelude.{
  ℕ, ◌+◌, ◌%◌, ◌≤◌, ◌<◌, ◌≡◌, ◌≢◌, refl, subst, true, List, [], ◌∷◌, arith, length, sum_by, ◌==◌,
  if◌then◌else◌,
}
use go_order_management_syst.Prelude.Int64.{Int64, is_positive, is_negative, wrapping_add}
use go_order_management_syst.Database.{Result, ok, err}
use go_order_management_syst.Inventory.Store.{Error}
use go_order_management_syst.Inventory.Normalize.{
  ItemRequest, add_quantity, collect, insert_item, sort_items, normalize_items, sorted,
}

-- The quantity of one product that a list of items asks for, as an unbounded number.
abbrev pub asked : Int64 → List ItemRequest → ℕ
asked p items = sum_by (λ i. if i.product_id == p then i.quantity else 0) items

abbrev pub Absent : Int64 → List ItemRequest → Type 0
Absent k [] = Unit {0}
Absent k (x ∷ xs) = (x.product_id ≢ k) × Absent k xs

abbrev pub Distinct : List ItemRequest → Type 0
Distinct [] = Unit {0}
Distinct (x ∷ xs) = Absent x.product_id xs × Distinct xs

-- Every id is above `k`, and they grow along the list.
abbrev pub Ascending : Int64 → List ItemRequest → Type 0
Ascending k [] = Unit {0}
Ascending k (x ∷ xs) = (k < x.product_id) × Ascending x.product_id xs

abbrev pub Positive : List ItemRequest → Type 0
Positive [] = Unit {0}
Positive (x ∷ xs) = (0 < x.product_id) × Positive xs

asked-add_quantity :
    (p : Int64) (item : ItemRequest) (m : List ItemRequest)
    → asked p (add_quantity item m) % 18446744073709551616
      ≡ (asked p m + asked p (item ∷ [])) % 18446744073709551616
unfolding add_quantity
asked-add_quantity p item [] = ground arith
asked-add_quantity p item (x ∷ m) = ground (arith, asked-add_quantity p item m)

add_quantity-Absent :
    (k : Int64) (item : ItemRequest) (m : List ItemRequest)
    → item.product_id ≢ k
    → Absent k m
    → Absent k (add_quantity item m)
unfolding add_quantity
add_quantity-Absent k item [] h a = (h, tt)
add_quantity-Absent k item (x ∷ m) h a = ground (arith, add_quantity-Absent k item m h a.1)

add_quantity-Distinct :
    (item : ItemRequest) (m : List ItemRequest) → Distinct m → Distinct (add_quantity item m)
unfolding add_quantity
add_quantity-Distinct item [] d = (tt, tt)
add_quantity-Distinct item (x ∷ m) d =
    ground (arith, add_quantity-Distinct item m d.1, add_quantity-Absent x.product_id item m)

add_quantity-Ids :
    (item : ItemRequest) (m : List ItemRequest)
    → 0 < item.product_id
    → Positive m
    → Positive (add_quantity item m)
unfolding add_quantity
add_quantity-Ids item [] h a = (h, tt)
add_quantity-Ids item (x ∷ m) h a = ground (arith, add_quantity-Ids item m h a.1)

-- What the loop has made of the items so far.
record Merged (p : Int64) (before : List ItemRequest) (items m : List ItemRequest) : Type 0 where
  sums : asked p m % 18446744073709551616 ≡ (asked p before + asked p items) % 18446744073709551616
  distinct : Distinct m
  ids : Positive m

collect-Merged :
    (p : Int64) (before items m : List ItemRequest)
    → Distinct before
    → Positive before
    → collect before items ≡ ok m
    → Merged p before items m
unfolding collect
collect-Merged p before [] m d a e = ground arith
collect-Merged p before (item ∷ items) m d a e = ground (
  arith,
  collect-Merged p (add_quantity item before) items m,
  add_quantity-Distinct item before d,
  add_quantity-Ids item before,
  asked-add_quantity p item before,
)

asked-insert_item :
    (p : Int64) (item : ItemRequest) (xs : List ItemRequest)
    → asked p (insert_item item xs) ≡ asked p (item ∷ xs)
unfolding insert_item
asked-insert_item p item [] = refl
asked-insert_item p item (x ∷ xs) = ground (arith, asked-insert_item p item xs)

asked-sort_items : (p : Int64) (xs : List ItemRequest) → asked p (sort_items xs) ≡ asked p xs
unfolding sort_items
asked-sort_items p [] = refl
asked-sort_items p (x ∷ xs) =
    omega (arith, asked-insert_item p x (sort_items xs), asked-sort_items p xs)

insert_item-Absent :
    (k : Int64) (item : ItemRequest) (xs : List ItemRequest)
    → item.product_id ≢ k
    → Absent k xs
    → Absent k (insert_item item xs)
unfolding insert_item
insert_item-Absent k item [] h a = (h, tt)
insert_item-Absent k item (x ∷ xs) h a = ground (arith, insert_item-Absent k item xs h a.1)

sort_items-Absent : (k : Int64) (xs : List ItemRequest) → Absent k xs → Absent k (sort_items xs)
unfolding sort_items
sort_items-Absent k [] a = tt
sort_items-Absent k (x ∷ xs) a =
    insert_item-Absent k x (sort_items xs) a.0 (sort_items-Absent k xs a.1)

insert_item-Ascending :
    (k : Int64) (item : ItemRequest) (xs : List ItemRequest)
    → k < item.product_id
    → Absent item.product_id xs
    → Ascending k xs
    → Ascending k (insert_item item xs)
unfolding insert_item
insert_item-Ascending k item [] h a s = (h, tt)
insert_item-Ascending k item (x ∷ xs) h a s =
    ground (arith, insert_item-Ascending x.product_id item xs)

sort_items-Ascending :
    (xs : List ItemRequest) → Positive xs → Distinct xs → Ascending 0 (sort_items xs)
unfolding sort_items
sort_items-Ascending [] a d = tt
sort_items-Ascending (x ∷ xs) a d =
    insert_item-Ascending 0 x (sort_items xs) a.0 (sort_items-Absent x.product_id xs d.0)
      (sort_items-Ascending xs a.1 d.1)

ok_injective :
    (xs ys : List ItemRequest) → ◌≡◌ {A = Result Error (List ItemRequest)} (ok xs) (ok ys) → xs ≡ ys
ok_injective xs ys e = cc

sorted-collect :
    (p : Int64) (items ys : List ItemRequest) (r : Result Error (List ItemRequest))
    → collect [] items ≡ r
    → sorted r ≡ ok ys
    → Ascending 0 ys × (asked p ys % 18446744073709551616 ≡ asked p items % 18446744073709551616)
sorted-collect p items ys (err e) c s = ground arith
sorted-collect p items ys (ok m) c s =
    let h = collect-Merged p [] items m tt tt c in
    let e : sort_items m ≡ ys = ok_injective (sort_items m) ys s in
    (
      subst (Ascending 0) e (sort_items-Ascending m h.ids h.distinct),
      subst (λ zs. asked p zs % 18446744073709551616 ≡ asked p items % 18446744073709551616) e
          (omega (arith, asked-sort_items p m, h.sums)),
    )

-- If items are accepted, there are between 1 and 100 of them, the merged items have distinct product
-- ids in ascending order, all positive, and ask for each product as much as the request does in
-- total, added up as 64-bit integers.
pub normalize_items_merges :
    (p : Int64) (items ys : List ItemRequest)
    → normalize_items items ≡ ok ys
    → (0 < length items)
      × (length items ≤ 100)
      × Ascending 0 ys
      × (asked p ys % 18446744073709551616 ≡ asked p items % 18446744073709551616)
unfolding normalize_items
normalize_items_merges p items ys e =
    let bounds : (0 < length items) × (length items ≤ 100) = ground arith in
    let accepted : sorted (collect [] items) ≡ ok ys = ground arith in
    let r = sorted-collect p items ys (collect [] items) refl accepted in
    (bounds.0, bounds.1, r.0, r.1)

-- The quantities are added with wrap-around: two valid items of one product whose quantities pass the
-- range of an `int64` together are merged into one item with a negative quantity.
pub normalize_items_overflows :
    (p q r : Int64)
    → is_positive p ≡ true
    → is_positive q ≡ true
    → is_positive r ≡ true
    → 9223372036854775807 < q + r
    → (normalize_items
          (record { product_id = p; quantity = q } ∷ record { product_id = p; quantity = r } ∷ [])
        ≡ ok (record { product_id = p; quantity = wrapping_add q r } ∷ []))
      × (is_negative (wrapping_add q r) ≡ true)
unfolding normalize_items collect add_quantity sort_items insert_item
normalize_items_overflows p q r vp vq vr over = ground arith
