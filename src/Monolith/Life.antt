-- ===== src/Monolith/Life.antt =====
-- The life of an order of internal/service/order_service.go as a state machine, and the operations
-- that are to refine it.
mod Patches
pub mod Refines
use Prim.Native.String.{String}
use go_order_management_syst.Prelude.{ℕ, List, [], ◌∷◌, Option, none, some}
use go_order_management_syst.Prelude.Int64.{Int64}
use go_order_management_syst.Database.{Db}
use go_order_management_syst.Database.Table.{find}
use go_order_management_syst.Monolith.Store.{
  Order, OrderStatus, pending, paid, finished, cancelled, Tables, has_id,
}
use go_order_management_syst.Monolith.Orders.Lifecycle.{
  cancel_order, cancel_expired_order, pay_order, finish_order,
}

-- The steps of the machine, for an order that may not be there.
pub data Step : Option OrderStatus → Option OrderStatus → Type 0 where
  stays : (s : Option OrderStatus) → Step s s
  pays : Step (some pending) (some paid)
  finishes : Step (some paid) (some finished)
  cancels : Step (some pending) (some cancelled)

pub data Trace (s : Option OrderStatus) : Option OrderStatus → Type 0 where
  here : Trace s s
  next : {t u : Option OrderStatus} → Trace s t → Step t u → Trace s u

abbrev pub status_in : Option Order → Option OrderStatus
status_in none = none
status_in (some o) = some o.status

abbrev pub status_of : Int64 → Tables → Option OrderStatus
status_of id t = status_in (find (has_id id) t.orders)

-- A call of the service on an order, at some time.
pub data Operation : Type 0 where
  cancel : ℕ → Int64 → Int64 → Operation
  expire : ℕ → String → Int64 → Operation
  pay : ℕ → Int64 → Int64 → Operation
  finish : ℕ → Int64 → Int64 → Operation

unfoldable pub run : Operation → Db Tables → Db Tables
run (cancel now user_id id) db = (cancel_order now user_id id db).1
run (expire now event_id id) db = (cancel_expired_order now event_id id db).1
run (pay now user_id id) db = (pay_order now user_id id db).1
run (finish now user_id id) db = (finish_order now user_id id db).1

unfoldable pub run_all : List Operation → Db Tables → Db Tables
run_all [] db = db
run_all (op ∷ ops) db = run_all ops (run op db)
