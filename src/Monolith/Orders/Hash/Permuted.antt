-- ===== src/Monolith/Orders/Hash/Permuted.antt =====
-- `buildCreateOrderRequestHash`: the hash of a request does not depend on the order of its items.
use Prim.Native.String.{String}
use mathlib.Core.Logic.{∥∥₁_elim}
use mathlib.Core.List.{Permᴰ, Perm}
use mathlib.Core.List.Permᴰ.{nil, cons, swap, trans}
use go_order_management_syst.Prelude.{
  ℕ, ◌+◌, ◌*◌, ◌%◌, ◌<◌, ◌≡◌, refl, ap, sym, subst, ◌∙◌, List, [], ◌∷◌, arith, ltb, if◌then◌else◌,
  Bool-cases, inl, inr,
}
use go_order_management_syst.Database.Ensures.{All}
use go_order_management_syst.Monolith.Orders.Hash.{
  ItemRequest, comes_before, insert_item, sort_items, request_hash,
}

-- Both numbers are 64-bit patterns.
pub record IsInt64Item (x : ItemRequest) : Type 0 where
  pub product_in_range : x.product_id < 18446744073709551616
  pub quantity_in_range : x.quantity < 18446744073709551616

abbrev rank : ItemRequest → ℕ
rank x =
    (x.product_id + 9223372036854775808) % 18446744073709551616 * 18446744073709551616
    + (x.quantity + 9223372036854775808) % 18446744073709551616

comes_before-rank :
    (x y : ItemRequest) → IsInt64Item x → IsInt64Item y → comes_before x y ≡ ltb (rank x) (rank y)
comes_before-rank x y h k = ground arith

rank_injective : (x y : ItemRequest) → IsInt64Item x → IsInt64Item y → rank x ≡ rank y → x ≡ y
rank_injective x y h k e = ground arith

-- Insertion by a rank.
insert_by : {A : Type 0} → (A → ℕ) → A → List A → List A
insert_by r x [] = x ∷ []
insert_by r x (z ∷ l) = if ltb (r z) (r x) then z ∷ insert_by r x l else x ∷ z ∷ l

insert_by_comm :
    {A : Type 0} (r : A → ℕ) (x y : A) (l : List A)
    → (r x ≡ r y → x ≡ y)
    → insert_by r x (insert_by r y l) ≡ insert_by r y (insert_by r x l)
unfolding insert_by
insert_by_comm r x y [] same = ground (arith, same)
insert_by_comm r x y (z ∷ l) same = ground (arith, same, insert_by_comm r x y l same)

All-insert :
    (x : ItemRequest) (l : List ItemRequest)
    → IsInt64Item x
    → All IsInt64Item l
    → All IsInt64Item (insert_item x l)
unfolding insert_item
All-insert x [] h all = (h, tt)
All-insert x (z ∷ l) h all = elim (Bool-cases (comes_before z x)) [
  | inl before ↦ rw before (all.0, All-insert x l h all.1)
  | inr after ↦ rw after (h, all)
]

All-sort : (l : List ItemRequest) → All IsInt64Item l → All IsInt64Item (sort_items l)
unfolding sort_items
All-sort [] all = tt
All-sort (x ∷ l) all = All-insert x (sort_items l) all.0 (All-sort l all.1)

insert_item-insert_by :
    (x : ItemRequest) (l : List ItemRequest)
    → IsInt64Item x
    → All IsInt64Item l
    → insert_item x l ≡ insert_by rank x l
unfolding insert_item insert_by
insert_item-insert_by x [] h all = refl
insert_item-insert_by x (z ∷ l) h all =
    rw (comes_before-rank z x all.0 h, insert_item-insert_by x l h all.1) refl

insert_comm :
    (x y : ItemRequest) (l : List ItemRequest)
    → IsInt64Item x
    → IsInt64Item y
    → All IsInt64Item l
    → insert_item x (insert_item y l) ≡ insert_item y (insert_item x l)
insert_comm x y l h k all =
    insert_item-insert_by x (insert_item y l) h (All-insert y l k all)
    ∙ ap (insert_by rank x) (insert_item-insert_by y l k all)
    ∙ insert_by_comm rank x y l (rank_injective x y h k)
    ∙ sym (ap (insert_by rank y) (insert_item-insert_by x l h all))
    ∙ sym (insert_item-insert_by y (insert_item x l) k (All-insert x l h all))

All-along : {xs ys : List ItemRequest} → Permᴰ xs ys → All IsInt64Item xs → All IsInt64Item ys
All-along nil all = all
All-along (cons e d) all = (subst IsInt64Item e all.0, All-along d all.1)
All-along (swap e f) all = (subst IsInt64Item f all.1.0, (subst IsInt64Item e all.0, all.1.1))
All-along (trans d e) all = All-along e (All-along d all)

sort_along :
    {xs ys : List ItemRequest} → Permᴰ xs ys → All IsInt64Item xs → sort_items xs ≡ sort_items ys
unfolding sort_items
sort_along nil all = refl
sort_along (cons {a = a} {b = b} {l₁ = l} {l₂ = r} e d) all =
    ap (insert_item a) (sort_along d all.1) ∙ ap (λ x. insert_item x (sort_items r)) e
sort_along (swap {a = a} {b = b} {a' = a'} {b' = b'} {l = l} e f) all =
    insert_comm a b (sort_items l) all.0 all.1.0 (All-sort l all.1.1)
    ∙ (ap (λ x. insert_item b (insert_item x (sort_items l))) e
        ∙ ap (λ x. insert_item x (insert_item b' (sort_items l))) f)
sort_along (trans d e) all = sort_along d all ∙ sort_along e (All-along d all)

-- The hash of a request does not depend on the order in which its items are listed.
pub request_hash-perm :
    (digest : List ItemRequest → String) (xs ys : List ItemRequest)
    → All IsInt64Item xs
    → Perm xs ys
    → request_hash digest xs ≡ request_hash digest ys
unfolding request_hash
request_hash-perm digest xs ys all p = ap digest (∥∥₁_elim p (hlevel) (λ d. sort_along d all))
