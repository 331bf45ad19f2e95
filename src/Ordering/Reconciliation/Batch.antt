-- ===== src/Ordering/Reconciliation/Batch.antt =====
-- `claim` and `processBatch` of internal/ordersvc/reconciliation_worker.go.
use go_order_management_syst.Prelude.{
  ℕ, ◌+◌, Bool, true, false, ◌&&◌, List, map, Option, none, some, ltb, leb, ◌==◌, take,
}
use go_order_management_syst.Database.{
  ◌>>=◌, ◌>>◌, pure, guard, statement, query, transaction, attempt, for_each,
}
use go_order_management_syst.Database.Table.{select}
use go_order_management_syst.Ordering.Store.{
  db_error, ReconciliationTask, TaskStatus, task_pending, task_failed,
}
use go_order_management_syst.Ordering.Payment.{Statements}
use go_order_management_syst.Ordering.Reconciliation.{
  WorkerConfig, Inventory, update_task, process_task,
}

abbrev pub is_waiting : TaskStatus → Bool
is_waiting task_pending = true
is_waiting task_failed = true
is_waiting s = false

abbrev pub lease_over : ℕ → Option ℕ → Bool
lease_over now none = true
lease_over now (some t) = ltb t now

abbrev pub is_eligible : ℕ → ReconciliationTask → Bool
is_eligible now k = is_waiting k.status && leb k.next_attempt_at now && lease_over now k.lease_until

abbrev pub lease : WorkerConfig → ℕ → ReconciliationTask → ReconciliationTask
lease cfg now k = record k {
  attempts = k.attempts + 1;
  lease_owner = cfg.worker_id;
  lease_until = some (now + cfg.lease_duration);
}

unfoldable pub claim_one : WorkerConfig → ℕ → ReconciliationTask → Statements (Unit {0})
claim_one cfg now task = do
  rows ← statement db_error (update_task task.id (λ _. true) (lease cfg now))
  guard (rows == 1) db_error

unfoldable pub claim_body : WorkerConfig → ℕ → Statements (List ReconciliationTask)
claim_body cfg now = do
  tasks ← query db_error (λ t. take cfg.batch_size (select (is_eligible now) t.tasks))
  for_each (claim_one cfg now) tasks
  pure (map (lease cfg now) tasks)

-- `claim`
unfoldable pub claim : WorkerConfig → ℕ → Statements (List ReconciliationTask)
claim cfg now = transaction db_error (claim_body cfg now)

-- `processBatch`: the error of a task is only logged.
unfoldable pub process_batch : WorkerConfig → ℕ → Inventory → Statements (Unit {0})
process_batch cfg now inventory = do
  tasks ← claim cfg now
  for_each (λ task. attempt (process_task cfg now inventory task)) tasks
