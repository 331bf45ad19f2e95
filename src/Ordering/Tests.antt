-- ===== src/Ordering/Tests.antt =====
-- Runs of the order service.
use go_order_management_syst.Prelude.{◌≡◌, refl, Bool, true, false, List, [], ◌∷◌, none, some}
use go_order_management_syst.Database.{
  Db, ok, err, continue, statement, query, transaction, guard, or_raise, handle,
}
use go_order_management_syst.Ordering.Store.{
  Order, Tables, pending, paid, reconciliation_required, outbox_pending, outbox_completed,
  unreachable, task_pending, finalize_payment, ReconciliationTask, divide_by_zero, update_order,
  trigger,
}
use go_order_management_syst.Ordering.Items.{
  Catalog, ItemRequest, Resolved, resolve_items, collect, add_quantity, price_items, check_item,
}
use go_order_management_syst.Ordering.Items.Total.{
  IsPriced, resolve_items-IsPriced, resolve_items_panics,
}
use go_order_management_syst.Ordering.Payment.{
  pay, begin_payment, resume_payment, claim_payment, end_payment, payment_body,
  require_reconciliation, load_for_transition,
}
use go_order_management_syst.Ordering.Life.{
  Event, pay_claims, pay_ends, cancel_claims, cancel_ends, stops, faults_come, run, idle,
}
use go_order_management_syst.Ordering.Life.Exclusive.{IsExclusive, run-idle-IsExclusive}
use go_order_management_syst.Ordering.Life.Statements.{status_of}
use go_order_management_syst.Ordering.Life.Whole.{Answers}
use go_order_management_syst.Ordering.Reconciliation.{WorkerConfig, Inventory, process_order}
use go_order_management_syst.Ordering.Reconciliation.Plan.{
  plan_reconciliation, carry_out, process_order-carry_out,
}
use go_order_management_syst.Ordering.Reconciliation.Effect.{Moves, process_order-Moves}
use go_order_management_syst.Prelude.{arith, drop, ◌&&◌, ◌==◌}
use go_order_management_syst.Database.Page.{pages}
use go_order_management_syst.Database.Sorted.{Descends, count}
use go_order_management_syst.Ordering.Listing.{
  list, listed, healthy as answering, list-pages, list_wraps,
}

abbrev order_5 : Order
order_5 = record {
  id = 5;
  user_id = 9;
  status = pending;
  total_fen = 300;
  reservation_id = "r5";
  idempotency_key = "k";
  failure_reason = none;
  items = [];
}

abbrev with_order : Order → Tables
with_order o = record {
  orders = o ∷ [];
  outbox = record { order_id = 5; due_at = 60; status = outbox_pending } ∷ [];
  tasks = [];
  next_order = 6;
  next_task = 1;
}

-- A database whose statements fail as listed.
abbrev failing : List Bool → Order → Db Tables
failing faults o = record { tables = with_order o; faults = faults }

abbrev confirms : Answers
confirms r = ok tt

abbrev no_answer : Answers
no_answer r = err unreachable

pays_order :
    (pay 10 confirms 9 5 (failing [] order_5)).1.tables.outbox
    ≡ record { order_id = 5; due_at = 60; status = outbox_completed } ∷ []
unfolding pay begin_payment resume_payment claim_payment end_payment payment_body
    load_for_transition update_order trigger continue statement query transaction guard or_raise
    handle
pays_order = refl

-- The commit behind the confirmation fails: the order has to be reconciled, and has a task for it.
payment_commit_fails :
    (pay 10 confirms 9 5
      (failing (false ∷ false ∷ false ∷ false ∷ true ∷ []) order_5)).1.tables.tasks
    ≡ record {
      id = 1;
      order_id = 5;
      action = finalize_payment;
      status = task_pending;
      attempts = 0;
      next_attempt_at = 10;
      lease_owner = "";
      lease_until = none;
    }
      ∷ []
unfolding pay begin_payment resume_payment claim_payment end_payment payment_body
    require_reconciliation load_for_transition update_order trigger continue statement query
    transaction guard or_raise handle
payment_commit_fails = refl

abbrev interleaving : List Event
interleaving =
    pay_claims 1 9 order_5
    ∷ cancel_claims 2 9 false order_5
    ∷ pay_ends 3 9 (err unreachable)
    ∷ cancel_claims 4 9 true order_5
    ∷ pay_claims 5 9 order_5
    ∷ faults_come (true ∷ [])
    ∷ cancel_ends 6 9 true (ok tt)
    ∷ stops
    ∷ []

run-idle-IsExclusive_example : IsExclusive 5 (run 5 (idle (failing [] order_5)) interleaving)
run-idle-IsExclusive_example = run-idle-IsExclusive 5 (failing [] order_5) interleaving

abbrev commit_fails : Db Tables
commit_fails = failing (false ∷ false ∷ true ∷ []) order_5

abbrev catalog : Catalog
catalog id = ok (record { id = id; name = "tea"; price_fen = 250; status = 1 })

abbrev basket : List ItemRequest
basket =
    record { product_id = 4; quantity = 1 }
    ∷ record { product_id = 3; quantity = 2 }
    ∷ record { product_id = 4; quantity = 2 }
    ∷ []

abbrev resolved_basket : Resolved
resolved_basket = record {
  items =
      record { order_id = 0; product_id = 3; product_name = "tea"; price_fen = 250; quantity = 2 }
      ∷ record { order_id = 0; product_id = 4; product_name = "tea"; price_fen = 250; quantity = 3 }
      ∷ [];
  reserve_items =
      record { product_id = 3; quantity = 2 } ∷ record { product_id = 4; quantity = 3 } ∷ [];
  total = 1250;
}

resolve_items-IsPriced_example : IsPriced 0 resolved_basket
unfolding resolve_items collect add_quantity price_items check_item
resolve_items-IsPriced_example = resolve_items-IsPriced catalog basket resolved_basket refl

resolve_items_panics_example :
    resolve_items catalog (
      record { product_id = 4; quantity = 9223372036854775807 }
      ∷ record { product_id = 4; quantity = 9223372036854775807 }
      ∷ record { product_id = 4; quantity = 2 }
      ∷ [])
    ≡ err divide_by_zero
resolve_items_panics_example =
    resolve_items_panics catalog 4 9223372036854775807 9223372036854775807 2
      (record { id = 4; name = "tea"; price_fen = 250; status = 1 }) refl refl refl refl refl refl
      refl refl

abbrev stuck_order : Order
stuck_order = record order_5 { status = reconciliation_required }

abbrev payment_task : ReconciliationTask
payment_task = record {
  id = 1;
  order_id = 5;
  action = finalize_payment;
  status = task_pending;
  attempts = 1;
  next_attempt_at = 10;
  lease_owner = "w";
  lease_until = some 50;
}

abbrev worker : WorkerConfig
worker = record {
  worker_id = "w";
  poll_interval = 2;
  retry_delay = 5;
  max_retry_delay = 100;
  lease_duration = 40;
  call_timeout = 10;
  batch_size = 10;
}

abbrev inventory : Inventory
inventory = record { confirm = confirms; release = no_answer }

process_order-carry_out_example :
    process_order worker 20 inventory payment_task finalize_payment stuck_order
      (failing [] stuck_order)
    ≡ carry_out worker 20 inventory payment_task finalize_payment stuck_order
        (plan_reconciliation payment_task (some reconciliation_required)).target_state
        (plan_reconciliation payment_task (some reconciliation_required)).classification
        (failing [] stuck_order)
process_order-carry_out_example =
    process_order-carry_out worker 20 inventory payment_task stuck_order (failing [] stuck_order)

process_order-Moves_example : Moves (some paid) (some reconciliation_required) (
    status_of 5
      (process_order worker 20 inventory payment_task finalize_payment stuck_order
        (failing [] stuck_order)).1.tables)
process_order-Moves_example =
    process_order-Moves worker 20 inventory payment_task finalize_payment stuck_order
      (failing [] stuck_order)

abbrev three_orders : Tables
three_orders = record (with_order order_5) {
  orders =
      order_5
      ∷ record order_5 { id = 7 }
      ∷ record order_5 { id = 6 }
      ∷ record order_5 { id = 4; user_id = 8 }
      ∷ [];
}

list-pages_example :
    let all = pages (λ page. listed (list drop 9 page 2 (answering three_orders)).0) 2 in
    Descends (λ o. o.id) all
    × ((p : Order → Bool) → count p all ≡ count (λ o. o.user_id == 9 && p o) three_orders.orders)
list-pages_example =
    list-pages drop 9 2 2 three_orders (λ offset rows small. refl) (omega arith) (omega arith)
      (omega arith) (omega arith) (omega arith)

-- Page 2 ^ 62 + 1 of pages of 4.
list_wraps_example :
    list drop 9 4611686018427387905 4 (answering three_orders)
    ≡ list drop 9 1 4 (answering three_orders)
list_wraps_example =
    list_wraps drop 9 4611686018427387905 4 (answering three_orders) refl (omega arith)
      (omega arith) refl
