-- ===== src/Ordering/Reconciliation/Plan.antt =====
-- `planReconciliation` of internal/ordersvc/reconciliation_dry_run.go, and what it says of a run.
use go_order_management_syst.Prelude.{
  ◌≡◌, refl, ℕ, Bool, true, false, List, map, Option, none, some, take, if◌then◌else◌, arith,
}
use go_order_management_syst.Database.{Result, Db, query, handle, ◌>>◌}
use go_order_management_syst.Database.Table.{find, select}
use go_order_management_syst.Ordering.Store.{
  Order, OrderStatus, paid, cancelled, failed, reconciliation_required, Tables, ReconciliationTask,
  Action, release_inventory_and_fail, finalize_cancel, finalize_payment, unsupported_from,
  is_status, has_id, db_error, RemoteError,
}
use go_order_management_syst.Ordering.Payment.{Statements}
use go_order_management_syst.Ordering.Reconciliation.Batch.{is_eligible}
use go_order_management_syst.Ordering.Reconciliation.{
  WorkerConfig, Inventory, mark_unresolved, complete_task, settle_order, after_failure,
  process_order, answered,
}

pub data Classification : Type 0 where
  ready already_final unsupported_action mismatch order_missing : Classification

pub record PlanItem : Type 0 where
  pub task : ReconciliationTask
  pub current_status : Option OrderStatus
  pub target_state : Option OrderStatus
  pub classification : Classification

-- `reconciliationTargetState`
abbrev pub target_state : Action → Option OrderStatus
target_state release_inventory_and_fail = some failed
target_state finalize_cancel = some cancelled
target_state finalize_payment = some paid
target_state (unsupported_from s) = none

-- The switch over the status of the order. No target is `reconciliation_required`.
abbrev pub classify : Option OrderStatus → Option OrderStatus → Classification
classify none current = unsupported_action
classify (some target) none = order_missing
classify (some target) (some s) =
    if is_status s reconciliation_required
    then ready
    else if is_status s target
    then already_final
    else mismatch

unfoldable pub plan_reconciliation : ReconciliationTask → Option OrderStatus → PlanItem
plan_reconciliation task current = record {
  task = task;
  current_status = current;
  target_state = target_state task.action;
  classification = classify (target_state task.action) current;
}

abbrev pub status_of_found : Option Order → Option OrderStatus
status_of_found none = none
status_of_found (some o) = some o.status

-- `DryRun`: the items of the report.
unfoldable pub dry_run : WorkerConfig → ℕ → Statements (List PlanItem)
unfolding plan_reconciliation
dry_run cfg now = query db_error (λ t.
    map (λ task. plan_reconciliation task (status_of_found (find (has_id task.order_id) t.orders)))
      (take cfg.batch_size (select (is_eligible now) t.tasks)))

-- The call of the inventory service for an action, and whether the outbox is completed.
abbrev pub call_of : Inventory → Action → Order → Result RemoteError (Unit {0})
call_of inventory finalize_payment o = inventory.confirm o.reservation_id
call_of inventory a o = inventory.release o.reservation_id

abbrev pub completes_outbox : Action → Bool
completes_outbox release_inventory_and_fail = false
completes_outbox a = true

-- What a worker does with a task of this plan.
abbrev pub carry_out :
    WorkerConfig
    → ℕ
    → Inventory
    → ReconciliationTask
    → Action
    → Order
    → Option OrderStatus
    → Classification
    → Statements (Unit {0})
carry_out cfg now inventory task a o (some target) ready db = handle (after_failure cfg now task) (
    (answered (call_of inventory a o) >> complete_task cfg now task target (completes_outbox a)) db)
carry_out cfg now inventory task a o (some target) already_final db =
    handle (after_failure cfg now task) (complete_task cfg now task target (completes_outbox a) db)
carry_out cfg now inventory task a o _ _ db = mark_unresolved cfg now task db

carry_out_action :
    (cfg : WorkerConfig) (now : ℕ) (inventory : Inventory) (task : ReconciliationTask) (o : Order)
    (db : Db Tables) (a : Action)
    → process_order cfg now inventory task a o db
      ≡ carry_out cfg now inventory task a o
          (target_state a)
          (classify (target_state a) (some o.status))
          db
unfolding process_order settle_order after_failure handle
carry_out_action cfg now inventory task o db release_inventory_and_fail = ground arith
carry_out_action cfg now inventory task o db finalize_cancel = ground arith
carry_out_action cfg now inventory task o db finalize_payment = ground arith
carry_out_action cfg now inventory task o db (unsupported_from s) = refl

-- A worker does with a task and its order what the classification of the dry run says: for a ready
-- task it calls the inventory service and, on an answer without an error, completes the task; for one
-- that is already final it completes the task without a call; and it marks any other as unresolved.
pub process_order-carry_out :
    (cfg : WorkerConfig) (now : ℕ) (inventory : Inventory) (task : ReconciliationTask) (o : Order)
    (db : Db Tables)
    → let item = plan_reconciliation task (some o.status) in
      process_order cfg now inventory task task.action o db
      ≡ carry_out cfg now inventory task task.action o item.target_state item.classification db
unfolding plan_reconciliation
process_order-carry_out cfg now inventory task o db =
    carry_out_action cfg now inventory task o db task.action
