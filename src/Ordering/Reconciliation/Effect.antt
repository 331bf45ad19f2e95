-- ===== src/Ordering/Reconciliation/Effect.antt =====
-- What the reconciliation worker does to the status of an order.
use Prim.Native.String.{String}
use mathlib.Core.Option.{some-injective}
use go_order_management_syst.Prelude.{
  ℕ, ◌≡◌, refl, sym, ap, subst, ◌∙◌, ◌⊎◌, inl, inr, Bool, Bool-cases, true, false, Option, some,
  ◌==◌, arith,
}
use go_order_management_syst.Prelude.Int64.{Int64}
use go_order_management_syst.Database.{Result, ok, err, Db, statement, handle}
use go_order_management_syst.Database.Outcome.{
  Outcome, Outcome-bind, Outcome-mono, Outcome-pure, Outcome-raise, Outcome-statement,
  Outcome-query, Outcome-guard, Outcome-transaction, Outcome-attempt, Outcome-handle,
  Outcome-tables,
}
use go_order_management_syst.Database.Table.{find}
use go_order_management_syst.Ordering.Store.{
  has_id, RemoteError, failed, cancelled, paid, release_inventory_and_fail, finalize_cancel,
  finalize_payment, unsupported_from, Order, OrderStatus, reconciliation_required, Error, Tables,
  ReconciliationTask, Action, db_error, update_order, set_status, is_status, complete_outbox,
}
use go_order_management_syst.Ordering.Life.Statements.{
  status_of, status_in, update_order-status, is_status_sound,
}
use go_order_management_syst.Ordering.Reconciliation.{
  WorkerConfig, Inventory, update_task, mark_failed, mark_unresolved, check_target,
  complete_outbox_if, complete_body, complete_task, settle_order, answered, is_mismatch,
  after_failure, process_order,
}
use go_order_management_syst.Ordering.Reconciliation.Plan.{target_state}

update_task_orders :
    (id : ℕ) (condition : ReconciliationTask → Bool)
    (change : ReconciliationTask → ReconciliationTask) (t : Tables) (n : ℕ) (t' : Tables)
    → update_task id condition change t ≡ some (n, t')
    → t'.orders ≡ t.orders
unfolding update_task
update_task_orders id condition change t n t' e = ground arith

-- The order keeps its status, or it had to be reconciled and has the target.
abbrev pub Moves : Option OrderStatus → Option OrderStatus → Option OrderStatus → Type 0
Moves target before after =
    (after ≡ before) ⊎ ((before ≡ some reconciliation_required) × (after ≡ target))

mark_unresolved-status :
    (id : Int64) (cfg : WorkerConfig) (now : ℕ) (task : ReconciliationTask) (db : Db Tables)
    → status_of id (mark_unresolved cfg now task db).1.tables ≡ status_of id db.tables
unfolding mark_unresolved
mark_unresolved-status id cfg now task db =
    Outcome-tables (λ t. status_of id t ≡ status_of id db.tables) _
      (Outcome-bind {Q = λ _ t. status_of id t ≡ status_of id db.tables}
        (Outcome-statement _ _ db refl λ n t e.
          ap (λ l. status_in (find (has_id id) l)) (update_task_orders task.id _ _ db.tables n t e))
        λ n db1 k.
          Outcome-guard {Q = λ _ t. status_of id t ≡ status_of id db.tables} _ _ db1 (λ _. k)
            λ _. k)
      (λ _ _ k. k) λ _ k. k

module _ (id : Int64) (target : OrderStatus) (before : Option OrderStatus) where
  abbrev Kept : Tables → Type 0
  Kept t = Moves (some target) before (status_of id t)

  task_update-Kept :
      (task_id : ℕ) (condition : ReconciliationTask → Bool)
      (change : ReconciliationTask → ReconciliationTask) (t : Tables) (n : ℕ) (t' : Tables)
      → update_task task_id condition change t ≡ some (n, t')
      → Kept t
      → Kept t'
  task_update-Kept task_id condition change t n t' e h =
      subst (λ l. Moves (some target) before (status_in (find (has_id id) l)))
        (sym (update_task_orders task_id condition change t n t' e)) h

  pub mark_failed-Kept :
      (cfg : WorkerConfig) (now : ℕ) (task : ReconciliationTask) (cause : Error) (db : Db Tables)
      → Kept db.tables
      → Outcome (λ _. Kept) Kept (mark_failed cfg now task cause db)
  unfolding mark_failed
  mark_failed-Kept cfg now task cause db h =
      Outcome-bind
        (Outcome-attempt (statement db_error (update_task task.id _ _)) db (
          Outcome-statement db_error (update_task task.id _ _) db h
            λ n t e. task_update-Kept task.id _ _ db.tables n t e h))
        λ _ db1 k. Outcome-raise cause db1 k

  pub mark_unresolved-Kept :
      (cfg : WorkerConfig) (now : ℕ) (task : ReconciliationTask) (db : Db Tables)
      → Kept db.tables
      → Outcome (λ _. Kept) Kept (mark_unresolved cfg now task db)
  unfolding mark_unresolved
  mark_unresolved-Kept cfg now task db h =
      Outcome-bind {Q = λ _. Kept}
        (Outcome-statement _ _ db h λ n t e. task_update-Kept task.id _ _ db.tables n t e h)
        λ n db1 k. Outcome-guard _ _ db1 (λ _. k) λ _. k

  after_failure-Kept :
      (cfg : WorkerConfig) (now : ℕ) (task : ReconciliationTask) (e : Error) (db : Db Tables)
      → Kept db.tables
      → Outcome (λ _. Kept) Kept (after_failure cfg now task e db)
  unfolding after_failure
  after_failure-Kept cfg now task e db h = elim (Bool-cases (is_mismatch e)) [
    | inl mismatched ↦ rw mismatched (mark_unresolved-Kept cfg now task db h)
    | inr other ↦ rw other (mark_failed-Kept cfg now task e db h)
  ]

  check_target-Kept :
      (order_id : Int64) (rows : ℕ) (db : Db Tables)
      → Kept db.tables
      → Outcome (λ _. Kept) (λ _. Unit {0}) (check_target order_id target rows db)
  unfolding check_target
  check_target-Kept order_id rows db h = elim (Bool-cases (rows == 0)) [
    | inl none_changed ↦ rw none_changed (
        Outcome-bind {Q = λ _. Kept} (Outcome-query _ _ db tt h)
          λ found db1 k. Outcome-guard _ _ db1 (λ _. tt) λ _. k)
    | inr changed ↦ rw changed (Outcome-pure tt db h)
  ]

  complete_outbox_if-Kept :
      (outbox : Bool) (order_id : Int64) (db : Db Tables)
      → Kept db.tables
      → Outcome (λ _. Kept) (λ _. Unit {0}) (complete_outbox_if outbox order_id db)
  unfolding complete_outbox_if
  complete_outbox_if-Kept true order_id db h =
      Outcome-statement db_error (complete_outbox order_id) db tt
        λ u t e. subst (λ (x : Unit {0} × Tables). Kept x.1) (some-injective _ _ e) h
  complete_outbox_if-Kept false order_id db h = Outcome-pure tt db h

  complete_task-Kept :
      (cfg : WorkerConfig) (now : ℕ) (task : ReconciliationTask) (outbox : Bool) (db : Db Tables)
      → task.order_id ≡ id
      → status_of id db.tables ≡ before
      → Outcome (λ _. Kept) Kept (complete_task cfg now task target outbox db)
  unfolding complete_task complete_body
  complete_task-Kept cfg now task outbox db same h =
      Outcome-mono
        (Outcome-transaction db_error _ db (
          Outcome-bind {Q = λ _. Kept}
            (Outcome-statement _ _ db tt λ n t e. settled_order n t (
              subst
                (λ i.
                  update_order now i (λ o. is_status o.status reconciliation_required)
                    (set_status target) db.tables
                  ≡ some (n, t))
                same e))
            λ rows db1 k1.
              Outcome-bind {Q = λ _. Kept} (check_target-Kept task.order_id rows db1 k1) λ _ db2 k2.
                Outcome-bind {Q = λ _. Kept} (complete_outbox_if-Kept outbox task.order_id db2 k2)
                  λ _ db3 k3.
                    Outcome-bind {Q = λ _. Kept}
                      (Outcome-statement _ _ db3 tt
                        λ n t e. task_update-Kept task.id _ _ db3.tables n t e k3)
                      λ n db4 k4. Outcome-guard _ _ db4 (λ _. tt) λ _. k4))
        (λ _ _ k. k) λ t unchanged. inl (ap (status_of id) unchanged ∙ h)
    where
      settled_order :
          (n : ℕ) (t : Tables)
          → (update_order now id
                (λ o. is_status o.status reconciliation_required)
                (set_status target)
                db.tables
              ≡ some (n, t))
          → Kept t
      settled_order n t e =
          elim (update_order-status now id _ _ target db.tables n t (λ _. (refl, refl)) e) [
            | inl (none_changed, unchanged) ↦ inl (ap (status_of id) unchanged ∙ h)
            | inr (one, after, o, found, met) ↦
                inr (sym h ∙ found ∙ ap some (is_status_sound o.status _ met), after)
          ]

  settle_order-Kept :
      (cfg : WorkerConfig) (now : ℕ) (call : String → Result RemoteError (Unit {0})) (outbox : Bool)
      (task : ReconciliationTask) (o : Order) (db : Db Tables)
      → task.order_id ≡ id
      → status_of id db.tables ≡ before
      → Outcome (λ _. Kept) Kept (settle_order cfg now call target outbox task o db)
  unfolding settle_order
  settle_order-Kept cfg now call outbox task o db same h =
      elim (Bool-cases (is_status o.status target)) [
        | inl there ↦ rw there (complete_task-Kept cfg now task outbox db same h)
        | inr unsettled ↦
            rw unsettled (elim (Bool-cases (is_status o.status reconciliation_required)) [
              | inl required ↦ rw required (
                  Outcome-bind {Q = λ _ t. status_of id t ≡ before}
                    (answered-Kept (call o.reservation_id))
                    λ _ db1 h1. complete_task-Kept cfg now task outbox db1 same h1)
              | inr mismatched ↦ rw mismatched (Outcome-raise _ db (inl h))
            ])
      ]
    where
      answered-Kept :
          (r : Result RemoteError (Unit {0}))
          → Outcome (λ _ t. status_of id t ≡ before) Kept (answered r db)
      answered-Kept (ok u) = Outcome-pure u db h
      answered-Kept (err e) = Outcome-raise _ db (inl h)

  recovered-Kept :
      (cfg : WorkerConfig) (now : ℕ) (task : ReconciliationTask)
      (r : Result Error (Unit {0}) × Db Tables)
      → Outcome (λ _. Kept) Kept r
      → Outcome (λ _. Kept) Kept (handle (after_failure cfg now task) r)
  recovered-Kept cfg now task r h =
      Outcome-handle h λ e db k. after_failure-Kept cfg now task e db k

-- Whatever the inventory service answers and whatever statements fail, a task of the worker leaves
-- the status of its order as it was, or the order required reconciliation and has the target state
-- that the dry run gives for the action of the task.
pub process_order-Moves :
    (cfg : WorkerConfig) (now : ℕ) (inventory : Inventory) (task : ReconciliationTask) (a : Action)
    (o : Order) (db : Db Tables)
    → Moves
        (target_state a)
        (status_of task.order_id db.tables)
        (status_of task.order_id (process_order cfg now inventory task a o db).1.tables)
unfolding process_order
process_order-Moves cfg now inventory task release_inventory_and_fail o db =
    Outcome-tables _ _
      (recovered-Kept task.order_id failed _ cfg now task _ (
        settle_order-Kept task.order_id failed _ cfg now inventory.release false task o db refl
          refl))
      (λ _ _ k. k) λ _ k. k
process_order-Moves cfg now inventory task finalize_cancel o db =
    Outcome-tables _ _
      (recovered-Kept task.order_id cancelled _ cfg now task _ (
        settle_order-Kept task.order_id cancelled _ cfg now inventory.release true task o db refl
          refl))
      (λ _ _ k. k) λ _ k. k
process_order-Moves cfg now inventory task finalize_payment o db =
    Outcome-tables _ _
      (recovered-Kept task.order_id paid _ cfg now task _
        (settle_order-Kept task.order_id paid _ cfg now inventory.confirm true task o db refl refl))
      (λ _ _ k. k) λ _ k. k
process_order-Moves cfg now inventory task (unsupported_from s) o db =
    inl (mark_unresolved-status task.order_id cfg now task db)
