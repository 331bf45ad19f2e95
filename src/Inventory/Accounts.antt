-- ===== src/Inventory/Accounts.antt =====
-- The books of internal/inventorysvc: what the tables of the inventory database say of one product.
pub mod Statements
pub mod Reserve
pub mod Settle
pub mod Stock
use go_order_management_syst.Prelude.{
  ℕ, ◌+◌, ◌%◌, ◌≡◌, ◌≤◌, Bool, true, false, List, [], ◌∷◌, sum_by, ◌==◌, if◌then◌else◌,
}
use go_order_management_syst.Prelude.Int64.{Int64, is_positive}
use go_order_management_syst.Inventory.Store.{
  Inventory, Reservation, ReservationItem, ReservationStatus, reservation_pending,
  reservation_confirmed, reservation_released, ChangeType, initialize, add, reserve, confirm,
  release, StockLog, Tables,
}

-- A quantity, if it is one of the product `p`.
abbrev pub of_p : Int64 → Int64 → ℕ → ℕ
of_p p product_id q = if product_id == p then q else 0

abbrev pub available_of : Int64 → Tables → ℕ
available_of p t = sum_by (λ i. of_p p i.product_id i.available_quantity) t.inventories

abbrev pub reserved_of : Int64 → Tables → ℕ
reserved_of p t = sum_by (λ i. of_p p i.product_id i.reserved_quantity) t.inventories

-- The quantity of the product in a list of items.
abbrev pub in_items : Int64 → List ReservationItem → ℕ
in_items p items = sum_by (λ i. of_p p i.product_id i.quantity) items

-- What a reservation holds back: nothing once it is confirmed or released.
abbrev pub held_if : ReservationStatus → ℕ → ℕ
held_if reservation_pending q = q
held_if reservation_confirmed q = 0
held_if reservation_released q = 0

abbrev pub held_by : Int64 → Reservation → ℕ
held_by p r = held_if r.status (in_items p r.items)

abbrev pub held : Int64 → Tables → ℕ
held p t = sum_by (held_by p) t.reservations

-- Which log entries change the available quantity, and which change the quantity in the house,
-- available or reserved. A logged quantity is signed.
abbrev pub moves_available : ChangeType → Bool
moves_available initialize = true
moves_available add = true
moves_available reserve = true
moves_available confirm = false
moves_available release = true

abbrev pub moves_house : ChangeType → Bool
moves_house initialize = true
moves_house add = true
moves_house reserve = false
moves_house confirm = true
moves_house release = false

abbrev pub logged : (ChangeType → Bool) → Int64 → List StockLog → ℕ
logged counts p logs =
    sum_by (λ l. if counts l.change_type then of_p p l.product_id l.quantity else 0) logs

abbrev pub AllPositive : List ReservationItem → Type 0
AllPositive [] = Unit {0}
AllPositive (i ∷ items) = (is_positive i.quantity ≡ true) × AllPositive items

abbrev pub AllItemsPositive : List Reservation → Type 0
AllItemsPositive [] = Unit {0}
AllItemsPositive (r ∷ rs) = AllPositive r.items × AllItemsPositive rs

-- Every product's reserved quantity is what its pending reservations hold, and the stock log, added
-- up as 64-bit integers, gives the available quantity and the quantity in the house.
pub record Balanced (t : Tables) : Type 0 where
  pub reserved_held : (p : Int64) → reserved_of p t ≡ held p t
  pub available_logged :
      (p : Int64)
      → available_of p t % 18446744073709551616
        ≡ logged moves_available p t.logs % 18446744073709551616
  pub house_logged :
      (p : Int64)
      → (available_of p t + reserved_of p t) % 18446744073709551616
        ≡ logged moves_house p t.logs % 18446744073709551616
  pub items_positive : AllItemsPositive t.reservations
