-- ===== src/Ordering/Reconciliation.antt =====
-- The worker of internal/ordersvc/reconciliation_worker.go that settles the orders with the status
-- `reconciliation_required`, and the plan of internal/ordersvc/reconciliation_dry_run.go. Instants and
-- durations are numbers of nanoseconds; `next_attempt_at` and `lease_until` do not overflow.
pub mod Batch
pub mod Plan
pub mod Effect
use Prim.Native.String.{String}
use text.Mathlib.Text.{◌==◌ as str_eq}
use go_order_management_syst.Prelude.{
  ℕ, ◌+◌, ◌-◌, Bool, true, false, not, ◌&&◌, ◌||◌, List, [], ◌∷◌, map, Option, none, some, ltb, leb,
  ◌==◌, if◌then◌else◌, take,
}
use go_order_management_syst.Prelude.Int64.{Int64, positive_or, signed_ltb}
use go_order_management_syst.Prelude.Text.{trim_space, is_empty}
use go_order_management_syst.Database.{
  Result, ok, err, Db, ◌>>=◌, ◌>>◌, pure, raise, guard, statement, query, transaction, attempt,
  recover, for_each,
}
use go_order_management_syst.Database.Table.{find, modify, select}
use go_order_management_syst.Resilience.Retry.Policy.{backoff_loop}
use go_order_management_syst.Ordering.Store.{
  Order, OrderStatus, paid, cancelled, failed, reconciliation_required, RemoteError, Error,
  remote_error, state_mismatch, lease_lost, db_error, Tables, ReconciliationTask, TaskStatus,
  task_pending, task_failed, task_completed, task_unresolved, Action, release_inventory_and_fail,
  finalize_cancel, finalize_payment, unsupported_from, is_status, has_id, update_order, set_status,
  complete_outbox,
}
use go_order_management_syst.Ordering.Payment.{Statements}

pub record WorkerConfig : Type 0 where
  pub worker_id : String
  pub poll_interval : Int64
  pub retry_delay : Int64
  pub max_retry_delay : Int64
  pub lease_duration : Int64
  pub call_timeout : Int64
  pub batch_size : Int64

abbrev pub or_fresh : String → String → String
or_fresh id fresh = if is_empty id then fresh else id

-- `normalized`; `fresh` is the id that is made from the clock.
unfoldable pub normalized : String → WorkerConfig → WorkerConfig
normalized fresh cfg =
    let retry = positive_or cfg.retry_delay 5000000000 in
    let longest = positive_or cfg.max_retry_delay 300000000000 in
    let batch = positive_or cfg.batch_size 10 in
    record {
      worker_id = or_fresh (trim_space cfg.worker_id) fresh;
      poll_interval = positive_or cfg.poll_interval 2000000000;
      retry_delay = retry;
      max_retry_delay = if signed_ltb longest retry then retry else longest;
      lease_duration = positive_or cfg.lease_duration 30000000000;
      call_timeout = positive_or cfg.call_timeout 10000000000;
      batch_size = if ltb 100 batch then 100 else batch;
    }

-- `reconciliationInventory`
pub record Inventory : Type 0 where
  pub confirm : String → Result RemoteError (Unit {0})
  pub release : String → Result RemoteError (Unit {0})

-- `retryDelay`
unfoldable pub retry_delay_after : WorkerConfig → ℕ → ℕ
unfolding backoff_loop
retry_delay_after cfg attempts = backoff_loop (attempts - 1) cfg.retry_delay cfg.max_retry_delay

abbrev pub has_task_id : ℕ → ReconciliationTask → Bool
has_task_id id k = k.id == id

-- `UPDATE order_reconciliation_tasks SET ... WHERE id = ? AND ...`
unfoldable pub update_task :
    ℕ
    → (ReconciliationTask → Bool)
    → (ReconciliationTask → ReconciliationTask)
    → Tables
    → Option (ℕ × Tables)
update_task id condition change t = elim (find (has_task_id id) t.tasks) [
  | none ↦ some (0, t)
  | some k ↦
      if condition k
      then some (1, record t { tasks = modify (has_task_id id) change t.tasks })
      else some (0, t)
]

abbrev pub owned_by : String → ReconciliationTask → Bool
owned_by worker_id k = str_eq k.lease_owner worker_id

abbrev pub end_lease : TaskStatus → ℕ → ReconciliationTask → ReconciliationTask
end_lease status next k = record k {
  status = status;
  lease_owner = "";
  lease_until = none;
  next_attempt_at = next;
}

-- `markFailed`: the cause is the error that it returns, whatever becomes of the update.
unfoldable pub mark_failed : WorkerConfig → ℕ → ReconciliationTask → Error → Statements (Unit {0})
unfolding retry_delay_after
mark_failed cfg now task cause = do
  attempt (
      statement db_error (
        update_task task.id (owned_by cfg.worker_id)
          (end_lease task_failed (now + retry_delay_after cfg task.attempts))))
  raise cause

-- `markUnresolved`
unfoldable pub mark_unresolved : WorkerConfig → ℕ → ReconciliationTask → Statements (Unit {0})
mark_unresolved cfg now task = do
  rows ←
      statement db_error
        (update_task task.id (owned_by cfg.worker_id) (end_lease task_unresolved now))
  guard (rows == 1) lease_lost

-- The test after an update of the order that changed no row.
unfoldable pub check_target : Int64 → OrderStatus → ℕ → Statements (Unit {0})
check_target order_id target rows =
    if rows == 0
    then (do
      found ← query db_error (λ t. find (has_id order_id) t.orders)
      guard (has_status found) state_mismatch)
    else pure tt
  where
    has_status : Option Order → Bool
    has_status none = false
    has_status (some o) = is_status o.status target

unfoldable pub complete_outbox_if : Bool → Int64 → Statements (Unit {0})
complete_outbox_if true order_id = statement db_error (complete_outbox order_id)
complete_outbox_if false order_id = pure tt

unfoldable pub complete_body :
    WorkerConfig → ℕ → ReconciliationTask → OrderStatus → Bool → Statements (Unit {0})
complete_body cfg now task target outbox = do
  rows ← statement db_error (
      update_order now task.order_id (λ o. is_status o.status reconciliation_required)
        (set_status target))
  check_target task.order_id target rows
  complete_outbox_if outbox task.order_id
  completed ←
      statement db_error
        (update_task task.id (owned_by cfg.worker_id) (end_lease task_completed now))
  guard (completed == 1) lease_lost

-- `completeTask`
unfoldable pub complete_task :
    WorkerConfig → ℕ → ReconciliationTask → OrderStatus → Bool → Statements (Unit {0})
complete_task cfg now task target outbox =
    transaction db_error (complete_body cfg now task target outbox)

-- An answer of the inventory service, as an error of the worker.
abbrev pub answered : Result RemoteError (Unit {0}) → Statements (Unit {0})
answered (ok u) = pure u
answered (err e) = raise (remote_error e)

-- The common text of `releaseInventoryAndFail`, `finalizeCancel` and `finalizePayment`.
unfoldable pub settle_order :
    WorkerConfig
    → ℕ
    → (String → Result RemoteError (Unit {0}))
    → OrderStatus
    → Bool
    → ReconciliationTask
    → Order
    → Statements (Unit {0})
settle_order cfg now call target outbox task order =
    if is_status order.status target
    then complete_task cfg now task target outbox
    else if is_status order.status reconciliation_required
    then answered (call order.reservation_id) >> complete_task cfg now task target outbox
    else raise state_mismatch

-- `errors.Is(err, ErrReconciliationStateMismatch)`
abbrev pub is_mismatch : Error → Bool
is_mismatch state_mismatch = true
is_mismatch e = false

unfoldable pub after_failure : WorkerConfig → ℕ → ReconciliationTask → Error → Statements (Unit {0})
after_failure cfg now task e =
    if is_mismatch e then mark_unresolved cfg now task else mark_failed cfg now task e

-- The switch of `processTask`, on the order of the task.
unfoldable pub process_order :
    WorkerConfig → ℕ → Inventory → ReconciliationTask → Action → Order → Statements (Unit {0})
process_order cfg now inventory task release_inventory_and_fail order =
    recover (settle_order cfg now inventory.release failed false task order)
      (after_failure cfg now task)
process_order cfg now inventory task finalize_cancel order =
    recover (settle_order cfg now inventory.release cancelled true task order)
      (after_failure cfg now task)
process_order cfg now inventory task finalize_payment order =
    recover (settle_order cfg now inventory.confirm paid true task order)
      (after_failure cfg now task)
process_order cfg now inventory task (unsupported_from s) order = mark_unresolved cfg now task

unfoldable pub process_found :
    WorkerConfig
    → ℕ
    → Inventory
    → ReconciliationTask
    → Result Error (Option Order) × Db Tables
    → Result Error (Unit {0}) × Db Tables
process_found cfg now inventory task (err e, db) = mark_failed cfg now task e db
process_found cfg now inventory task (ok none, db) = mark_unresolved cfg now task db
process_found cfg now inventory task (ok (some order), db) =
    process_order cfg now inventory task task.action order db

-- `processTask`
unfoldable pub process_task :
    WorkerConfig → ℕ → Inventory → ReconciliationTask → Statements (Unit {0})
process_task cfg now inventory task db =
    process_found cfg now inventory task
      (query db_error (λ t. find (has_id task.order_id) t.orders) db)
