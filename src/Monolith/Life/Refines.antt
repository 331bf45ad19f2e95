-- ===== src/Monolith/Life/Refines.antt =====
-- The operations of internal/service/order_service.go on an order refine the state machine.
use go_order_management_syst.Prelude.{
  ℕ, ◌≡◌, refl, sym, subst, inl, inr, false, List, [], ◌∷◌, some, none, Option, Bool-cases, ◌==◌,
}
use go_order_management_syst.Database.{Db, Result, ok, err}
use go_order_management_syst.Database.Ensures.{
  Ensures, Atomic, Ensures-bind, Ensures-statement, Ensures-query, Ensures-guard, Ensures-or_raise,
  Ensures-pure, Ensures-mono, Atomic-transaction,
}
use go_order_management_syst.Database.Outcome.{
  Outcome, Outcome-bind, Outcome-statement, Outcome-query, Outcome-guard, Outcome-or_raise,
  Outcome-raise, Outcome-tables,
}
use go_order_management_syst.Database.Table.{find}
use go_order_management_syst.Monolith.Store.{
  Order, OrderStatus, pending, paid, finished, cancelled, Tables, Error, TimeoutOutbox, has_id,
  same_status,
}
use go_order_management_syst.Monolith.Orders.Lifecycle.{
  cancel_pending_order, cancel_found, cancel_body, cancel_order, expire_found, expire_due,
  expire_body, cancel_expired_order, pay_found, pay_order, finish_found, finish_order,
}
use go_order_management_syst.Monolith.Life.{
  Step, stays, pays, finishes, cancels, Trace, here, next, status_in, status_of, Operation, cancel,
  expire, pay, finish, run, run_all,
}
use go_order_management_syst.Monolith.Life.Patches.{patch-Step, restore_items_orders}

module _ (x : ℕ) (t0 : Tables) where
  -- The order with this id has made at most one step.
  abbrev Stepped : Tables → Type 0
  Stepped t = Step (status_of x t0) (status_of x t)

  unchanged : (t : Tables) → t ≡ t0 → Stepped t
  unchanged t same = subst Stepped (sym same) (stays (status_of x t0))

  cancel_pending_order-Step :
      (now : ℕ) (order : Order) (db : Db Tables)
      → db.tables ≡ t0
      → Ensures (λ _ t. Stepped t) (cancel_pending_order now order db)
  unfolding cancel_pending_order
  cancel_pending_order-Step now order db same =
      Ensures-bind {Q = λ _ t. Stepped t}
        (Ensures-statement _ _ db λ rows t e.
          subst (λ (u : Tables). Step (status_of x u) (status_of x t)) same
            (patch-Step x now order.user_id order.id rows pending cancelled db.tables t cancels e))
        λ rows db1 h1. elim (Bool-cases (rows == 0)) [
          | inl none_changed ↦ rw none_changed (Ensures-pure false db1 h1)
          | inr changed ↦ rw changed (
              Ensures-mono (restore_items_orders db1.tables.orders order.id db1 refl) λ _ t os.
                subst (λ o. Step (status_of x t0) (status_in (find (has_id x) o))) (sym os) h1)
        ]

  cancel_found-Step :
      (now : ℕ) (order : Order) (status : OrderStatus) (db : Db Tables)
      → db.tables ≡ t0
      → Ensures (λ _ t. Stepped t) (cancel_found now order status db)
  unfolding cancel_found
  cancel_found-Step now order cancelled db same = Ensures-pure tt db (unchanged db.tables same)
  cancel_found-Step now order paid db same = record { success = tt }
  cancel_found-Step now order finished db same = record { success = tt }
  cancel_found-Step now order pending db same =
      Ensures-bind {Q = λ _ t. Stepped t} (cancel_pending_order-Step now order db same)
        λ done db1 h. Ensures-guard done _ db1 λ _. h

  expire_found-Step :
      (now : ℕ) (found : Option Order) (db : Db Tables)
      → db.tables ≡ t0
      → Ensures (λ _ t. Stepped t) (expire_found now found db)
  unfolding expire_found
  expire_found-Step now none db same = Ensures-pure tt db (unchanged db.tables same)
  expire_found-Step now (some order) db same =
      elim (Bool-cases (same_status order.status pending)) [
        | inl waits ↦ rw waits (
            Ensures-bind {Q = λ _ t. Stepped t} (cancel_pending_order-Step now order db same)
              λ _ db1 h. Ensures-pure tt db1 h)
        | inr moved_on ↦ rw moved_on (Ensures-pure tt db (unchanged db.tables same))
      ]

  expire_due-Step :
      (now id : ℕ) (outbox : Option TimeoutOutbox) (db : Db Tables)
      → db.tables ≡ t0
      → Ensures (λ _ t. Stepped t) (expire_due now id outbox db)
  unfolding expire_due
  expire_due-Step now id none db same = Ensures-pure tt db (unchanged db.tables same)
  expire_due-Step now id (some e) db same =
      Ensures-bind {Q = λ _ t. t ≡ t0} (Ensures-guard _ _ db λ _. same) λ _ db1 h1.
        Ensures-bind {Q = λ _ t. t ≡ t0} (Ensures-query _ _ db1 h1)
          λ found db2 h2. expire_found-Step now found db2 h2

  -- A change of the status outside a transaction, whatever comes of it.
  pay_found-Step :
      (now user_id : ℕ) (order : Order) (status : OrderStatus) (db : Db Tables)
      → db.tables ≡ t0
      → Outcome (λ _ t. Stepped t) Stepped (pay_found now user_id order status db)
  unfolding pay_found
  pay_found-Step now user_id order paid db same = Outcome-raise _ db (unchanged db.tables same)
  pay_found-Step now user_id order finished db same = Outcome-raise _ db (unchanged db.tables same)
  pay_found-Step now user_id order cancelled db same = Outcome-raise _ db (unchanged db.tables same)
  pay_found-Step now user_id order pending db same =
      Outcome-bind {Q = λ _ t. Stepped t}
        (Outcome-statement _ _ db (unchanged db.tables same) λ rows t e.
          subst (λ (u : Tables). Step (status_of x u) (status_of x t)) same
            (patch-Step x now user_id order.id rows pending paid db.tables t pays e))
        λ rows db1 h1. Outcome-guard _ _ db1 (λ _. h1) (λ _. h1)

  finish_found-Step :
      (now user_id : ℕ) (order : Order) (status : OrderStatus) (db : Db Tables)
      → db.tables ≡ t0
      → Outcome (λ _ t. Stepped t) Stepped (finish_found now user_id order status db)
  unfolding finish_found
  finish_found-Step now user_id order pending db same =
      Outcome-raise _ db (unchanged db.tables same)
  finish_found-Step now user_id order cancelled db same =
      Outcome-raise _ db (unchanged db.tables same)
  finish_found-Step now user_id order finished db same =
      Outcome-raise _ db (unchanged db.tables same)
  finish_found-Step now user_id order paid db same =
      Outcome-bind {Q = λ _ t. Stepped t}
        (Outcome-statement _ _ db (unchanged db.tables same) λ rows t e.
          subst (λ (u : Tables). Step (status_of x u) (status_of x t)) same
            (patch-Step x now user_id order.id rows paid finished db.tables t finishes e))
        λ rows db1 h1. Outcome-guard _ _ db1 (λ _. h1) (λ _. h1)

  -- The tables after a transaction whose body steps.
  Atomic-Step :
      {A : Type 0} (r : Result Error A × Db Tables)
      → Atomic t0 (λ _ t. Stepped t) r
      → Stepped r.1.tables
  Atomic-Step (ok a, db) h = h
  Atomic-Step (err e, db) h = unchanged db.tables h

-- One call, for one order.
run-Step :
    (x : ℕ) (op : Operation) (db : Db Tables)
    → Step (status_of x db.tables) (status_of x (run op db).tables)
unfolding run cancel_order cancel_body cancel_expired_order expire_body pay_order finish_order
run-Step x (cancel now user_id id) db = Atomic-Step x db.tables _ (
    Atomic-transaction _ (cancel_body now user_id id) db (
      Ensures-bind {Q = λ _ t. t ≡ db.tables} (Ensures-query _ _ db refl) λ found db1 h1.
        Ensures-bind {Q = λ _ t. t ≡ db.tables} (Ensures-or_raise _ _ db1 λ _ _. h1)
          λ o db2 h2. cancel_found-Step x db.tables now o o.status db2 h2))
run-Step x (expire now event_id id) db = Atomic-Step x db.tables _ (
    Atomic-transaction _ (expire_body now event_id id) db (
      Ensures-bind {Q = λ _ t. t ≡ db.tables} (Ensures-query _ _ db refl)
        λ outbox db1 h1. expire_due-Step x db.tables now id outbox db1 h1))
run-Step x (pay now user_id id) db =
    let start = unchanged x db.tables in
    Outcome-tables (Stepped x db.tables) _
      (Outcome-bind {Q = λ _ t. t ≡ db.tables} (Outcome-query _ _ db (start db.tables refl) refl)
        λ found db1 h1.
          Outcome-bind {Q = λ _ t. t ≡ db.tables}
            (Outcome-or_raise found _ db1 (start db1.tables h1) λ _ _. h1)
            λ o db2 h2. pay_found-Step x db.tables now user_id o o.status db2 h2)
      (λ _ t h. h) (λ t h. h)
run-Step x (finish now user_id id) db =
    let start = unchanged x db.tables in
    Outcome-tables (Stepped x db.tables) _
      (Outcome-bind {Q = λ _ t. t ≡ db.tables} (Outcome-query _ _ db (start db.tables refl) refl)
        λ found db1 h1.
          Outcome-bind {Q = λ _ t. t ≡ db.tables}
            (Outcome-or_raise found _ db1 (start db1.tables h1) λ _ _. h1)
            λ o db2 h2. finish_found-Step x db.tables now user_id o o.status db2 h2)
      (λ _ t h. h) (λ t h. h)

before-Trace : {s t u : Option OrderStatus} → Step s t → Trace t u → Trace s u
before-Trace st here = next here st
before-Trace st (next r st') = next (before-Trace st r) st'

-- Whatever calls of `CancelOrder`, `CancelExpiredOrder`, `PayOrder` and `FinishOrder` are made, with
-- whatever statements failing, every order goes a path of the state machine: pending orders may be
-- paid or cancelled, paid ones finished, and nothing else happens.
pub run_all-Trace :
    (x : ℕ) (ops : List Operation) (db : Db Tables)
    → Trace (status_of x db.tables) (status_of x (run_all ops db).tables)
unfolding run_all
run_all-Trace x [] db = here
run_all-Trace x (op ∷ ops) db = before-Trace (run-Step x op db) (run_all-Trace x ops (run op db))
