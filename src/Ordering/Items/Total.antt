-- ===== src/Ordering/Items/Total.antt =====
-- The arithmetic of `resolveItems`.
use go_order_management_syst.Prelude.{
  ℕ, ◌+◌, ◌*◌, ◌≤◌, ◌≡◌, refl, ap, subst, true, Bool-cases, ◌||◌, inl, inr, List, [], ◌∷◌, map, ltb,
  ◌==◌, sum_by, length, arith,
}
use go_order_management_syst.Prelude.Int64.{Int64, is_positive}
use go_order_management_syst.Database.{Result, ok, err}
use go_order_management_syst.Database.Ensures.{All}
use go_order_management_syst.Ordering.Store.{Error, OrderItem, divide_by_zero}
use go_order_management_syst.Ordering.Items.{
  Product, Catalog, ItemRequest, Resolved, with_item, check_item, price_items, resolve_items,
  and_then, with_remote, collect, add_quantity,
}

abbrev pub cost : OrderItem → ℕ
cost i = i.price_fen * i.quantity

abbrev pub to_reserve : OrderItem → ItemRequest
to_reserve i = record { product_id = i.product_id; quantity = i.quantity }

-- A price and a quantity that are positive as signed numbers.
abbrev pub Sells : OrderItem → Type 0
Sells i = (is_positive i.price_fen ≡ true) × (is_positive i.quantity ≡ true)

pub record IsPriced (before : ℕ) (r : Resolved) : Type 0 where
  pub adds : r.total ≡ before + sum_by cost r.items
  pub fits : r.total ≤ 9223372036854775807
  pub agrees : r.reserve_items ≡ map to_reserve r.items
  pub sells : All Sells r.items

check_item_ok :
    (quantity total : Int64) (p : Product) (total' : Int64)
    → check_item quantity total p ≡ ok total'
    → (total' ≡ total + p.price_fen * quantity)
      × (total' ≤ 9223372036854775807)
      × (is_positive p.price_fen ≡ true)
      × (is_positive quantity ≡ true)
unfolding check_item
check_item_ok quantity total p total' e = ground arith

-- What `resolve_items` returns, whatever it is.
abbrev pub IsPricedResult : ℕ → Result Error Resolved → Type 0
IsPricedResult before (ok r) = IsPriced before r
IsPricedResult before (err e) = Unit {0}

with_item-IsPriced :
    (quantity total total' : Int64) (p : Product) (rest : Result Error Resolved)
    → check_item quantity total p ≡ ok total'
    → IsPricedResult total' rest
    → IsPricedResult total (with_item quantity p rest)
with_item-IsPriced quantity total total' p (err e) c h = tt
with_item-IsPriced quantity total total' p (ok r) c h =
    let (sum, fits, price, positive) = check_item_ok quantity total p total' c in
    record {
      adds = omega (arith, h.adds, sum);
      fits = h.fits;
      agrees = ap (λ l. record { product_id = p.id; quantity = quantity } ∷ l) h.agrees;
      sells = ((price, positive), h.sells);
    }

and_then-IsPriced :
    {A : Type 0} (before : ℕ) (r : Result Error A) (k : A → Result Error Resolved)
    → ((a : A) → r ≡ ok a → IsPricedResult before (k a))
    → IsPricedResult before (and_then r k)
and_then-IsPriced before (err e) k h = tt
and_then-IsPriced before (ok a) k h = h a refl

price_items-IsPriced :
    (catalog : Catalog) (total : Int64) (xs : List ItemRequest)
    → total ≤ 9223372036854775807
    → IsPricedResult total (price_items catalog total xs)
unfolding price_items
price_items-IsPriced catalog total [] h = record {
  adds = omega arith;
  fits = h;
  agrees = refl;
  sells = tt;
}
price_items-IsPriced catalog total (x ∷ xs) h =
    and_then-IsPriced total (with_remote (catalog x.product_id)) _ λ p known.
      and_then-IsPriced total (check_item x.quantity total p) _ λ total' c.
        with_item-IsPriced x.quantity total total' p _ c
          (price_items-IsPriced catalog total' xs (check_item_ok x.quantity total p total' c).1)

-- The total of a resolved order is the exact sum of price times quantity over its items and at most
-- 2 ^ 63 - 1, every price and quantity is positive, and the items to reserve are those of the order.
pub resolve_items-IsPriced :
    (catalog : Catalog) (requested : List ItemRequest) (r : Resolved)
    → resolve_items catalog requested ≡ ok r
    → IsPriced 0 r
unfolding resolve_items
resolve_items-IsPriced catalog requested r e =
    subst (IsPricedResult 0) e
      (elim (Bool-cases (length requested == 0 || ltb 100 (length requested))) [
        | inl wrong ↦ rw wrong tt
        | inr fine ↦ rw fine (
            and_then-IsPriced 0 (collect [] requested) (price_items catalog 0)
              λ quantities c. price_items-IsPriced catalog 0 quantities (omega arith))
      ])

-- Three quantities of one product that add up to 2 ^ 64 wrap around to 0, and the division by the
-- quantity ends in a run-time panic.
pub resolve_items_panics :
    (catalog : Catalog) (id q r s : Int64) (p : Product)
    → is_positive id ≡ true
    → is_positive q ≡ true
    → is_positive r ≡ true
    → is_positive s ≡ true
    → q + r + s ≡ 18446744073709551616
    → catalog id ≡ ok p
    → p.status ≡ 1
    → is_positive p.price_fen ≡ true
    → (resolve_items catalog (
          record { product_id = id; quantity = q }
          ∷ record { product_id = id; quantity = r }
          ∷ record { product_id = id; quantity = s }
          ∷ [])
        ≡ err divide_by_zero)
unfolding resolve_items collect add_quantity price_items check_item
resolve_items_panics catalog id q r s p i q+ r+ s+ sum known sold price =
    let wraps : collect [] (
          record { product_id = id; quantity = q }
          ∷ record { product_id = id; quantity = r }
          ∷ record { product_id = id; quantity = s }
          ∷ [])
        ≡ ok (record { product_id = id; quantity = 0 } ∷ []) =
      ground arith in
    rw wraps (rw known (rw sold (rw price refl)))
