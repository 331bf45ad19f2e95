-- ===== src/Ordering/Creation/Saga.antt =====
-- The end of the saga of `Create`: what becomes of the order and its reservation.
use Prim.Native.String.{String}
use go_order_management_syst.Prelude.{◌≡◌, ◌⊎◌, Option, some}
use go_order_management_syst.Prelude.Int64.{Int64}
use go_order_management_syst.Database.{Result, ok, err}
use go_order_management_syst.Database.Outcome.{Outcome}
use go_order_management_syst.Ordering.Store.{
  Order, OrderStatus, reserving, pending, failed, reconciliation_required, RemoteError, Tables,
}
use go_order_management_syst.Ordering.Creation.{Inventory}
use go_order_management_syst.Ordering.Life.Statements.{status_of, Either}

-- Where a failed creation leaves the status if its second transaction failed, by the answer to the
-- release.
abbrev pub Undone : Result RemoteError (Unit {0}) → Option OrderStatus → Type 0
Undone (ok u) s = Either failed reserving s
Undone (err e) s = Either reconciliation_required reserving s

-- Where a failed creation leaves the status, by the answer to the reservation.
abbrev pub Broken : Inventory → Result RemoteError String → Option OrderStatus → Type 0
Broken inventory (err e) s = Either failed reserving s
Broken inventory (ok r) s = (s ≡ some pending) ⊎ Undone (inventory.release r) s

-- What a creation that returns an order leaves.
abbrev pub Accepted : Int64 → Result RemoteError String → Order → Tables → Type 0
Accepted id answer o t =
    (status_of id t ≡ some pending) × (o.status ≡ pending) × (r : String) × (answer ≡ ok r)
