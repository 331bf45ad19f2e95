-- ===== src/Inventory/Store.antt =====
-- The tables of the inventory database and the statements on them, from
-- internal/inventorysvc/inventory.go and migrations/inventory. The items of a reservation are kept
-- with it, as `Reservation.Items` has them. The columns that are unsigned by a CHECK constraint are
-- numbers below 2 ^ 63; a statement that would leave that range is refused.
use Prim.Native.String.{String}
use text.Mathlib.Text.{◌==◌ as str_eq}
use go_order_management_syst.Prelude.{
  ℕ, ◌+◌, ◌-◌, Bool, true, false, ◌||◌, List, [], ◌∷◌, ◌++◌, Option, none, some, leb, ◌==◌,
  if◌then◌else◌,
}
use go_order_management_syst.Prelude.Int64.{Int64, is_positive, signed_leb}
use go_order_management_syst.Database.Table.{find, modify, exists}

pub record Inventory : Type 0 where
  pub product_id : Int64
  pub available_quantity : ℕ
  pub reserved_quantity : ℕ
  pub version : ℕ

pub data ReservationStatus : Type 0 where
  reservation_pending reservation_confirmed reservation_released : ReservationStatus

pub record ReservationItem : Type 0 where
  pub reservation_id : String
  pub product_id : Int64
  pub quantity : Int64

pub record Reservation : Type 0 where
  pub id : String
  pub order_id : Int64
  pub status : ReservationStatus
  pub items : List ReservationItem

pub data ChangeType : Type 0 where
  initialize add reserve confirm release : ChangeType

pub record StockLog : Type 0 where
  pub product_id : Int64
  pub change_type : ChangeType
  pub quantity : Int64
  pub reference_id : String

pub record Tables : Type 0 where
  pub inventories : List Inventory
  pub reservations : List Reservation
  -- newest first
  pub logs : List StockLog

pub data Error : Type 0 where
  inventory_not_found insufficient_inventory reservation_not_found : Error
  reservation_transition invalid_inventory_amount : Error
  -- any other error of the database
  db_error : Error

abbrev pub same_status : ReservationStatus → ReservationStatus → Bool
same_status reservation_pending reservation_pending = true
same_status reservation_confirmed reservation_confirmed = true
same_status reservation_released reservation_released = true
same_status _ _ = false

abbrev pub of_product : Int64 → Inventory → Bool
of_product product_id inventory = inventory.product_id == product_id

abbrev pub with_id : String → Reservation → Bool
with_id id r = str_eq r.id id

abbrev pub of_order : Int64 → Reservation → Bool
of_order order_id r = r.order_id == order_id

-- A BIGINT column with `CHECK (column >= 0)` plus or minus a signed amount.
abbrev pub column_add : ℕ → Int64 → Option ℕ
column_add a w =
    if leb w 9223372036854775807
    then if leb (a + w) 9223372036854775807 then some (a + w) else none
    else if leb (18446744073709551616 - w) a
    then some (a - (18446744073709551616 - w))
    else none

abbrev pub column_sub : ℕ → Int64 → Option ℕ
column_sub a w =
    if leb w 9223372036854775807
    then if leb w a then some (a - w) else none
    else if leb (a + (18446744073709551616 - w)) 9223372036854775807
    then some (a + (18446744073709551616 - w))
    else none

abbrev pub put_inventory : Int64 → Inventory → Tables → Tables
put_inventory product_id inventory t = record t {
  inventories = modify (of_product product_id) (λ _. inventory) t.inventories;
}

-- `UPDATE ... SET` of the row with this key; the count of the rows that were updated.
abbrev pub updated : Int64 → Tables → Option Inventory → Option (ℕ × Tables)
updated product_id t none = none
updated product_id t (some inventory) = some (1, put_inventory product_id inventory t)

abbrev pub both : (ℕ → ℕ → Inventory) → Option ℕ → Option ℕ → Option Inventory
both f (some a) (some b) = some (f a b)
both f none b = none
both f (some a) none = none

-- available_quantity + q, version + 1, where the product is this one
abbrev pub add_row : Int64 → Inventory → Option Inventory
add_row q i = elim (column_add i.available_quantity q) [
  | none ↦ none
  | some a ↦ some (record i { available_quantity = a; version = i.version + 1 })
]

unfoldable pub update_add : Int64 → Int64 → Tables → Option (ℕ × Tables)
update_add product_id q t = elim (find (of_product product_id) t.inventories) [
  | none ↦ some (0, t)
  | some i ↦ updated product_id t (add_row q i)
]

-- available_quantity - q, reserved_quantity + q, where available_quantity >= q
abbrev pub reserve_row : Int64 → Inventory → Option Inventory
reserve_row q i =
    both
      (λ a b. record i { available_quantity = a; reserved_quantity = b; version = i.version + 1 })
      (column_sub i.available_quantity q) (column_add i.reserved_quantity q)

unfoldable pub update_reserve : Int64 → Int64 → Tables → Option (ℕ × Tables)
update_reserve product_id q t = elim (find (of_product product_id) t.inventories) [
  | none ↦ some (0, t)
  | some i ↦
      if signed_leb q i.available_quantity
      then updated product_id t (reserve_row q i)
      else some (0, t)
]

-- reserved_quantity - q, and available_quantity + q on a release, where reserved_quantity >= q
abbrev pub settle_row : Bool → Int64 → Inventory → Option Inventory
settle_row releases q i =
    both
      (λ a b. record i { available_quantity = a; reserved_quantity = b; version = i.version + 1 })
      (if releases then column_add i.available_quantity q else some i.available_quantity)
      (column_sub i.reserved_quantity q)

unfoldable pub update_settle : Bool → Int64 → Int64 → Tables → Option (ℕ × Tables)
update_settle releases product_id q t = elim (find (of_product product_id) t.inventories) [
  | none ↦ some (0, t)
  | some i ↦
      if signed_leb q i.reserved_quantity
      then updated product_id t (settle_row releases q i)
      else some (0, t)
]

-- PRIMARY KEY (product_id), CHECK (available_quantity >= 0)
unfoldable pub create_inventory : Inventory → Tables → Option (Unit {0} × Tables)
create_inventory i t =
    if exists (of_product i.product_id) t.inventories
      || leb 9223372036854775808 i.available_quantity
    then none
    else some (tt, record t { inventories = i ∷ t.inventories })

-- PRIMARY KEY (id), UNIQUE KEY (order_id)
unfoldable pub create_reservation : Reservation → Tables → Option (Unit {0} × Tables)
create_reservation r t =
    if exists (with_id r.id) t.reservations || exists (of_order r.order_id) t.reservations
    then none
    else some (tt, record t { reservations = r ∷ t.reservations })

abbrev pub item_of : Int64 → ReservationItem → Bool
item_of product_id item = item.product_id == product_id

abbrev pub add_item : ReservationItem → Reservation → Reservation
add_item item r = record r { items = r.items ++ item ∷ [] }

-- FOREIGN KEY (reservation_id), UNIQUE KEY (reservation_id, product_id), CHECK (quantity > 0)
unfoldable pub create_item : ReservationItem → Tables → Option (Unit {0} × Tables)
create_item item t = elim (find (with_id item.reservation_id) t.reservations) [
  | none ↦ none
  | some r ↦
      if exists (item_of item.product_id) r.items
      then none
      else if is_positive item.quantity
      then some (
        tt,
        record t {
          reservations = modify (with_id item.reservation_id) (add_item item) t.reservations;
        },
      )
      else none
]

abbrev pub create_log : StockLog → Tables → Option (Unit {0} × Tables)
create_log log t = some (tt, record t { logs = log ∷ t.logs })

abbrev pub set_status : ReservationStatus → Reservation → Reservation
set_status target r = record r { status = target }

unfoldable pub update_status : String → ReservationStatus → Tables → Option (Unit {0} × Tables)
update_status id target t =
    some (tt, record t { reservations = modify (with_id id) (set_status target) t.reservations })
