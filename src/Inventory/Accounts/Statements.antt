-- ===== src/Inventory/Accounts/Statements.antt =====
-- What each statement of internal/inventorysvc does to the books of one product.
use Prim.Native.String.{String}
use go_order_management_syst.Prelude.{
  ℕ, ◌+◌, ◌-◌, ◌≡◌, ◌≢◌, refl, inl, inr, Bool, true, List, [], ◌∷◌, ◌++◌, some, arith, Option-cases,
  if◌then◌else◌,
}
use go_order_management_syst.Prelude.Int64.{Int64, is_positive}
use go_order_management_syst.Database.Table.{find, modify, sum_by-modify, find_holds}
use go_order_management_syst.Inventory.Store.{
  Inventory, Reservation, ReservationItem, Tables, of_product, with_id, update_add, update_reserve,
  update_settle, create_item, update_status, add_item, set_status, ReservationStatus,
  reservation_pending,
}
use go_order_management_syst.Inventory.Accounts.{
  of_p, available_of, reserved_of, in_items, held_by, held,
}

-- The two sums after the one row of a product is replaced.
put_row :
    (p product_id : Int64) (t : Tables) (i j : Inventory)
    → find (of_product product_id) t.inventories ≡ some i
    → j.product_id ≡ i.product_id
    → let t' = record t { inventories = modify (of_product product_id) (λ _. j) t.inventories } in
      (available_of p t' + of_p p product_id i.available_quantity
        ≡ available_of p t + of_p p product_id j.available_quantity)
      × (reserved_of p t' + of_p p product_id i.reserved_quantity
          ≡ reserved_of p t + of_p p product_id j.reserved_quantity)
put_row p product_id t i j found same = ground (
  arith,
  find_holds (of_product product_id) t.inventories i found,
  sum_by-modify (λ (k : Inventory). of_p p k.product_id k.available_quantity)
      (of_product product_id) (λ _. j) t.inventories i found,
  sum_by-modify (λ (k : Inventory). of_p p k.product_id k.reserved_quantity) (of_product product_id)
      (λ _. j) t.inventories i found,
)

-- How a statement changes the two quantities of the product `p`, and nothing but the stock.
pub record Moved (p : Int64) (t t' : Tables) (out back held_out held_back : ℕ) : Type 0 where
  pub available_moved : available_of p t' + out ≡ available_of p t + back
  pub reserved_moved : reserved_of p t' + held_out ≡ reserved_of p t + held_back
  pub same_reservations : t'.reservations ≡ t.reservations
  pub same_logs : t'.logs ≡ t.logs

-- A reservation of a positive quantity takes it from the available stock and adds it to the reserved.
pub update_reserve-Moved :
    (p product_id : Int64) (q : Int64) (t t' : Tables)
    → is_positive q ≡ true
    → update_reserve product_id q t ≡ some (1, t')
    → Moved p t t' (of_p p product_id q) 0 0 (of_p p product_id q)
unfolding update_reserve
update_reserve-Moved p product_id q t t' pos e =
    elim (Option-cases (find (of_product product_id) t.inventories)) [
      | inl missing ↦ ground arith
      | inr (i, found) ↦ ground (
        arith,
        put_row p product_id t i
            (record i {
              available_quantity = i.available_quantity - q;
              reserved_quantity = i.reserved_quantity + q;
              version = i.version + 1;
            })
            found refl,
      )
    ]

-- Confirming takes a positive quantity from the reserved stock; releasing puts it back as well.
pub update_settle-Moved :
    (releases : Bool) (p product_id : Int64) (q : Int64) (t t' : Tables)
    → is_positive q ≡ true
    → update_settle releases product_id q t ≡ some (1, t')
    → Moved p t t' 0 (if releases then of_p p product_id q else 0) (of_p p product_id q) 0
unfolding update_settle
update_settle-Moved releases p product_id q t t' pos e =
    elim (Option-cases (find (of_product product_id) t.inventories)) [
      | inl missing ↦ ground arith
      | inr (i, found) ↦ ground (
        arith,
        put_row p product_id t i
            (record i {
              available_quantity =
                  if releases then i.available_quantity + q else i.available_quantity;
              reserved_quantity = i.reserved_quantity - q;
              version = i.version + 1;
            })
            found refl,
      )
    ]

pub update_add-Moved :
    (p product_id : Int64) (q : Int64) (n : ℕ) (t t' : Tables) (i : Inventory)
    → is_positive q ≡ true
    → find (of_product product_id) t.inventories ≡ some i
    → update_add product_id q t ≡ some (n, t')
    → Moved p t t' 0 (of_p p product_id q) 0 0
unfolding update_add
update_add-Moved p product_id q n t t' i pos found e = ground (
  arith,
  put_row p product_id t i
      (record i { available_quantity = i.available_quantity + q; version = i.version + 1 }) found
      refl,
)

in_items-append :
    (p : Int64) (item : ReservationItem) (items : List ReservationItem)
    → in_items p (items ++ item ∷ []) ≡ in_items p items + of_p p item.product_id item.quantity
in_items-append p item [] = ground arith
in_items-append p item (x ∷ items) = ground (arith, in_items-append p item items)

-- How a statement changes what the reservations hold of `p`, and nothing but the reservations.
pub record Holds (p : Int64) (t t' : Tables) (out back : ℕ) : Type 0 where
  pub held_moved : held p t' + out ≡ held p t + back
  pub same_inventories : t'.inventories ≡ t.inventories
  pub same_logs : t'.logs ≡ t.logs

-- A created item adds its quantity to its reservation, if that is pending.
pub create_item-Holds :
    (p : Int64) (item : ReservationItem) (t t' : Tables) (r : Reservation) (u : Unit {0})
    → find (with_id item.reservation_id) t.reservations ≡ some r
    → r.status ≡ reservation_pending
    → create_item item t ≡ some (u, t')
    → Holds p t t' 0 (of_p p item.product_id item.quantity)
unfolding create_item
create_item-Holds p item t t' r u found pending e = ground (
  arith,
  in_items-append p item r.items,
  sum_by-modify (held_by p) (with_id item.reservation_id) (add_item item) t.reservations r found,
)

pub create_item_positive :
    (item : ReservationItem) (t t' : Tables) (u : Unit {0})
    → create_item item t ≡ some (u, t')
    → is_positive item.quantity ≡ true
unfolding create_item
create_item_positive item t t' u e =
    elim (Option-cases (find (with_id item.reservation_id) t.reservations)) [
      | inl missing ↦ ground arith
      | inr (r, found) ↦ ground arith
    ]

-- A reservation that leaves `pending` lets go of all its items.
pub update_status-Holds :
    (p : Int64) (id : String) (target : ReservationStatus) (t t' : Tables) (r : Reservation)
    (u : Unit {0})
    → find (with_id id) t.reservations ≡ some r
    → r.status ≡ reservation_pending
    → target ≢ reservation_pending
    → update_status id target t ≡ some (u, t')
    → Holds p t t' (in_items p r.items) 0
unfolding update_status
update_status-Holds p id target t t' r u found pending moves e =
    ground
      (arith, sum_by-modify (held_by p) (with_id id) (set_status target) t.reservations r found)

pub create_item_rows :
    (item : ReservationItem) (t t' : Tables) (r : Reservation) (u : Unit {0})
    → find (with_id item.reservation_id) t.reservations ≡ some r
    → create_item item t ≡ some (u, t')
    → t'.reservations ≡ modify (with_id item.reservation_id) (add_item item) t.reservations
unfolding create_item
create_item_rows item t t' r u found e = ground arith
