-- ===== src/Ordering/Life/Whole.antt =====
-- `Pay` and `cancel` from beginning to end, with no other request in between.
use Prim.Native.String.{String}
use go_order_management_syst.Prelude.{◌≡◌, ◌⊎◌, Option, some}
use go_order_management_syst.Prelude.Int64.{Int64}
use go_order_management_syst.Database.{Result, ok, err}
use go_order_management_syst.Database.Outcome.{Outcome}
use go_order_management_syst.Database.Table.{find}
use go_order_management_syst.Ordering.Store.{
  Order, OrderStatus, pending, reconciliation_required, RemoteError, Error, Tables, has_id,
}
use go_order_management_syst.Ordering.Payment.{Begun, settled, claimed}
use go_order_management_syst.Ordering.Life.Statements.{status_of, Either}

-- The answers of the inventory service.
abbrev pub Answers : Type 0
Answers = String → Result RemoteError (Unit {0})

-- This order stood in the tables.
abbrev pub Stood : Int64 → Tables → Order → Type 0
Stood id t o = find (has_id id) t.orders ≡ some o

-- A request that moves a pending order to the status `done` over `busy`: it returns an order with the
-- status `done`, which it had before, or which it reached from `pending` after the answer for its own
-- reservation was no error.
abbrev pub Reached : Int64 → Answers → OrderStatus → Tables → Order → Tables → Type 0
Reached id answers done before o t =
    (o.status ≡ done)
    × (status_of id t ≡ some done)
    × (old : Order) × Stood id before old
    × ((old.status ≡ done) ⊎ ((old.status ≡ pending) × (answers old.reservation_id ≡ ok tt)))

-- The status behind an error of the second part, by the answer for the reservation.
abbrev pub Left :
    OrderStatus → OrderStatus → Result RemoteError (Unit {0}) → Option OrderStatus → Type 0
Left busy done (ok u) s = (s ≡ some done) ⊎ Either reconciliation_required busy s
Left busy done (err e) s = Either pending busy s

-- Where it leaves the order if it fails, by the result of its first part.
abbrev pub Stopped :
    Int64 → Answers → OrderStatus → OrderStatus → Tables → Result Error Begun → Tables → Type 0
Stopped id answers busy done before (err e) t = status_of id t ≡ status_of id before
Stopped id answers busy done before (ok b) t =
    (old : Order) × Stood id before old
    × (old.status ≡ pending)
    × Left busy done (answers old.reservation_id) (status_of id t)

-- What the first part leaves.
abbrev Started : Int64 → OrderStatus → OrderStatus → Tables → Begun → Tables → Type 0
Started id busy done before (settled o) t =
    (status_of id t ≡ status_of id before) × Stood id before o × (o.status ≡ done)
Started id busy done before (claimed o) t =
    (status_of id t ≡ some busy) × Stood id before o × (o.status ≡ pending)
