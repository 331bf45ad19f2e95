-- ===== src/Ordering/Store.antt =====
-- The tables of the ordering database and the statements on them, from internal/ordersvc/order.go and
-- migrations/ordering. A failure reason is the error whose text the code stores.
use Prim.Native.String.{String}
use go_order_management_syst.Prelude.{
  ℕ, ◌+◌, Bool, true, false, not, ◌&&◌, List, [], ◌∷◌, ◌++◌, map, Option, none, some, ◌==◌,
  if◌then◌else◌,
}
use go_order_management_syst.Prelude.Int64.{Int64}
use go_order_management_syst.Database.Table.{find, modify, exists}

pub data OrderStatus : Type 0 where
  reserving pending paying paid cancelling cancelled finished failed : OrderStatus
  reconciliation_required : OrderStatus

pub data OutboxStatus : Type 0 where
  outbox_pending outbox_published outbox_completed outbox_failed : OutboxStatus

-- An error of a remote service: no answer, or an answer with this status.
pub data RemoteError : Type 0 where
  unreachable : RemoteError
  status : ℕ → RemoteError

pub data Error : Type 0 where
  order_not_found invalid_order_request invalid_order_state product_unavailable : Error
  compensation_required state_mismatch lease_lost : Error
  reservation_failed remote_error : RemoteError → Error
  -- the run-time panic of a division by zero
  divide_by_zero : Error
  -- "...; release compensation failed: ..."
  release_failed : Error → RemoteError → Error
  -- any other error of the database
  db_error : Error

pub record OrderItem : Type 0 where
  pub order_id : Int64
  pub product_id : Int64
  pub product_name : String
  pub price_fen : Int64
  pub quantity : Int64

pub record Order : Type 0 where
  pub id : Int64
  pub user_id : Int64
  pub status : OrderStatus
  pub total_fen : Int64
  pub reservation_id : String
  pub idempotency_key : String
  pub failure_reason : Option Error
  pub items : List OrderItem

pub record TimeoutOutbox : Type 0 where
  pub order_id : Int64
  pub due_at : ℕ
  pub status : OutboxStatus

pub data Action : Type 0 where
  release_inventory_and_fail finalize_cancel finalize_payment : Action
  unsupported_from : OrderStatus → Action

pub data TaskStatus : Type 0 where
  task_pending task_failed task_completed task_unresolved : TaskStatus

pub record ReconciliationTask : Type 0 where
  pub id : ℕ
  pub order_id : Int64
  pub action : Action
  pub status : TaskStatus
  pub attempts : ℕ
  pub next_attempt_at : ℕ
  pub lease_owner : String
  pub lease_until : Option ℕ

pub record Tables : Type 0 where
  pub orders : List Order
  pub outbox : List TimeoutOutbox
  pub tasks : List ReconciliationTask
  -- AUTO_INCREMENT of the orders and of the tasks
  pub next_order : Int64
  pub next_task : ℕ

abbrev pub is_status : OrderStatus → OrderStatus → Bool
is_status reserving reserving = true
is_status pending pending = true
is_status paying paying = true
is_status paid paid = true
is_status cancelling cancelling = true
is_status cancelled cancelled = true
is_status finished finished = true
is_status failed failed = true
is_status reconciliation_required reconciliation_required = true
is_status _ _ = false

abbrev pub has_id : Int64 → Order → Bool
has_id id o = o.id == id

-- `id = ? AND user_id = ?`, or the id alone for the system
abbrev pub visible : Bool → Int64 → Order → Bool
visible true user_id o = true
visible false user_id o = o.user_id == user_id

-- The row with this primary key, if it meets the rest of the condition.
abbrev pub only_if : (Order → Bool) → Option Order → Option Order
only_if condition none = none
only_if condition (some o) = if condition o then some o else none

abbrev pub find_order : Bool → Int64 → Int64 → Tables → Option Order
find_order system user_id id t = only_if (visible system user_id) (find (has_id id) t.orders)

-- The CASE expressions of the trigger in 000003_reconciliation_tasks.sql.
abbrev pub action_from : OrderStatus → Action
action_from reserving = release_inventory_and_fail
action_from cancelling = finalize_cancel
action_from paying = finalize_payment
action_from old = unsupported_from old

abbrev pub task_status_from : OrderStatus → TaskStatus
task_status_from reserving = task_pending
task_status_from cancelling = task_pending
task_status_from paying = task_pending
task_status_from old = task_unresolved

abbrev pub same_action : Action → Action → Bool
same_action release_inventory_and_fail release_inventory_and_fail = true
same_action finalize_cancel finalize_cancel = true
same_action finalize_payment finalize_payment = true
same_action (unsupported_from s) (unsupported_from s') = is_status s s'
same_action _ _ = false

abbrev pub new_task : ℕ → ℕ → Int64 → OrderStatus → ReconciliationTask
new_task now id order_id old = record {
  id = id;
  order_id = order_id;
  action = action_from old;
  status = task_status_from old;
  attempts = 0;
  next_attempt_at = now;
  lease_owner = "";
  lease_until = none;
}

-- The trigger: an order that becomes `reconciliation_required` gets a task, once for each action.
unfoldable pub trigger : ℕ → Int64 → OrderStatus → OrderStatus → Tables → Tables
trigger now order_id old new t =
    if is_status new reconciliation_required && not (is_status old reconciliation_required)
    then if exists (λ k. k.order_id == order_id && same_action k.action (action_from old)) t.tasks
      then t
      else record t {
        tasks = t.tasks ++ new_task now t.next_task order_id old ∷ [];
        next_task = t.next_task + 1;
      }
    else t

-- `UPDATE orders_v2 SET ... WHERE id = ? AND ...`; the count of the rows that were updated.
unfoldable pub update_order :
    ℕ → Int64 → (Order → Bool) → (Order → Order) → Tables → Option (ℕ × Tables)
update_order now id condition change t = elim (find (has_id id) t.orders) [
  | none ↦ some (0, t)
  | some o ↦
      if condition o
      then some (
        1,
        trigger now id o.status (change o).status
            (record t { orders = modify (has_id id) (λ _. change o) t.orders }),
      )
      else some (0, t)
]

abbrev pub set_status : OrderStatus → Order → Order
set_status new o = record o { status = new }

abbrev pub set_status_reason : OrderStatus → Option Error → Order → Order
set_status_reason new reason o = record o { status = new; failure_reason = reason }

abbrev pub is_open : OutboxStatus → Bool
is_open outbox_completed = false
is_open s = true

abbrev pub complete_row : Int64 → TimeoutOutbox → TimeoutOutbox
complete_row order_id e =
    if e.order_id == order_id && is_open e.status then record e { status = outbox_completed } else e

-- `UPDATE order_timeout_outbox_v2 SET status = 'completed' WHERE order_id = ? AND status IN ?`
abbrev pub complete_outbox : Int64 → Tables → Option (Unit {0} × Tables)
complete_outbox order_id t = some (tt, record t { outbox = map (complete_row order_id) t.outbox })
