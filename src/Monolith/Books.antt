-- ===== src/Monolith/Books.antt =====
-- The books of the single-process service: what its tables say of one product.
pub mod Statements
pub mod Lines
pub mod Create
pub mod Cancel
pub mod Expire
pub mod Supply
pub mod Whole
use go_order_management_syst.Prelude.{
  ℕ, ◌+◌, ◌%◌, ◌≡◌, Bool, true, false, List, [], sum_by, ◌==◌, if◌then◌else◌,
}
use go_order_management_syst.Prelude.Int64.{Int64}
use go_order_management_syst.Monolith.Store.{
  OrderItem, Order, OrderStatus, pending, paid, finished, cancelled, BizType, biz_init,
  biz_manual_add, biz_order_deduct, biz_order_rollback, StockLog, Tables,
}

-- A quantity, if it is one of the product `p`.
abbrev pub of_p : Int64 → Int64 → ℕ → ℕ
of_p p product_id q = if product_id == p then q else 0

abbrev pub stock_of : Int64 → Tables → ℕ
stock_of p t = sum_by (λ i. of_p p i.product_id i.stock_quantity) t.inventories

abbrev pub in_items : Int64 → List OrderItem → ℕ
in_items p items = sum_by (λ i. of_p p i.product_id i.quantity) items

-- What an order takes from the stock: nothing once it is cancelled.
abbrev pub taken_if : OrderStatus → ℕ → ℕ
taken_if pending q = q
taken_if paid q = q
taken_if finished q = q
taken_if cancelled q = 0

abbrev pub taken_by : Int64 → Order → ℕ
taken_by p o = taken_if o.status (in_items p o.items)

abbrev pub taken : Int64 → Tables → ℕ
taken p t = sum_by (taken_by p) t.orders

-- The log entries that supply stock from outside.
abbrev pub is_supply : BizType → Bool
is_supply biz_init = true
is_supply biz_manual_add = true
is_supply biz_order_deduct = false
is_supply biz_order_rollback = false

abbrev pub logged : Int64 → List StockLog → ℕ
logged p logs = sum_by (λ l. of_p p l.product_id l.change_quantity) logs

abbrev pub supplied : Int64 → List StockLog → ℕ
supplied p logs =
    sum_by (λ l. if is_supply l.biz_type then of_p p l.product_id l.change_quantity else 0) logs

-- The books while the items `left` of a cancelled order are still to be put back: the stock log,
-- added up as 64-bit integers, gives the stock, and what was supplied is in the stock, taken by the
-- orders that are not cancelled, or still to be put back.
pub record Owing (left : List OrderItem) (t : Tables) : Type 0 where
  pub stock_logged :
      (p : Int64) → stock_of p t % 18446744073709551616 ≡ logged p t.logs % 18446744073709551616
  pub supplied_there :
      (p : Int64)
      → (stock_of p t + taken p t + in_items p left) % 18446744073709551616
        ≡ supplied p t.logs % 18446744073709551616

abbrev pub Balanced : Tables → Type 0
Balanced t = Owing [] t
