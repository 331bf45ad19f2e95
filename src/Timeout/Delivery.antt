-- ===== src/Timeout/Delivery.antt =====
-- `handleDelivery` of internal/ordersvc/worker.go.
use go_order_management_syst.Prelude.{
  ℕ, true, ◌+◌, ◌≡◌, refl, ap, subst, false, Bool, Bool-cases, inl, inr, List, [], ◌∷◌, Option,
  none, some, map, ◌==◌, if◌then◌else◌, arith,
}
use mathlib.Core.Option.{some-injective}
use go_order_management_syst.Prelude.Int64.{Int64, is_positive}
use go_order_management_syst.Database.{Result, ok, err, Db, statement}
use go_order_management_syst.Database.Ensures.{All}
use go_order_management_syst.Database.Outcome.{Outcome, Outcome-statement, Outcome-tables}
use go_order_management_syst.Timeout.Outbox.{
  OutboxEvent, EventStatus, event_completed, db_error, Rows, Statements, Error, update_rows,
  drop_lease,
}

-- What the worker does with the message: `Reject(false)`, `Nack(false, true)` or `Ack(false)`.
pub data Settlement : Type 0 where
  rejected requeued acknowledged : Settlement

abbrev pub of_order : Int64 → OutboxEvent → Bool
of_order order_id e = e.order_id == order_id

abbrev pub completed_row : OutboxEvent → OutboxEvent
completed_row e = record (drop_lease e) { status = event_completed }

abbrev pub one_more_attempt : OutboxEvent → OutboxEvent
one_more_attempt e = record e { attempts = e.attempts + 1 }

unfoldable pub complete_event : Int64 → Statements ℕ
complete_event order_id = statement db_error (update_rows (of_order order_id) completed_row)

unfoldable pub count_attempt : Int64 → Statements ℕ
count_attempt order_id = statement db_error (update_rows (of_order order_id) one_more_attempt)

abbrev pub settle_completed : Result Error ℕ × Db Rows → Settlement × Db Rows
settle_completed (ok updated, db) = (acknowledged, db)
settle_completed (err e, db) = (requeued, db)

-- By the answer of the order service to `TimeoutCancel`.
unfoldable pub settle_cancelled : Int64 → Result Error (Unit {0}) → Db Rows → Settlement × Db Rows
settle_cancelled order_id (err e) db = (requeued, (count_attempt order_id db).1)
settle_cancelled order_id (ok _) db = settle_completed (complete_event order_id db)

-- `handleDelivery`, on the order id that the message has, if it has one.
unfoldable pub handle_delivery :
    Option Int64 → (Int64 → Result Error (Unit {0})) → Db Rows → Settlement × Db Rows
handle_delivery none timeout_cancel db = (rejected, db)
handle_delivery (some order_id) timeout_cancel db =
    if is_positive order_id
    then settle_cancelled order_id (timeout_cancel order_id) db
    else (rejected, db)

-- An event of the order is completed.
abbrev pub IsDone : Int64 → OutboxEvent → Type 0
IsDone order_id e = of_order order_id e ≡ true → e.status ≡ event_completed

complete_rows :
    (order_id : Int64) (rows : Rows)
    → All (IsDone order_id) (map (λ e. if of_order order_id e then completed_row e else e) rows)
complete_rows order_id [] = tt
complete_rows order_id (e ∷ rows) = (ground arith, complete_rows order_id rows)

complete_event-IsDone :
    (order_id : Int64) (db : Db Rows)
    → Outcome
        (λ _ rows. All (IsDone order_id) rows)
        (λ rows. rows ≡ db.tables)
        (complete_event order_id db)
unfolding complete_event update_rows
complete_event-IsDone order_id db =
    Outcome-statement db_error (update_rows (of_order order_id) completed_row) db refl λ n rows e.
      subst (λ (x : ℕ × Rows). All (IsDone order_id) x.1) (some-injective _ _ e)
        (complete_rows order_id db.tables)

abbrev pub statuses : Rows → List EventStatus
statuses rows = map (λ e. e.status) rows

count_rows :
    (order_id : Int64) (rows : Rows)
    → statuses (map (λ e. if of_order order_id e then one_more_attempt e else e) rows)
      ≡ statuses rows
count_rows order_id [] = refl
count_rows order_id (e ∷ rows) = ground (arith, count_rows order_id rows)

count_attempt_keeps :
    (order_id : Int64) (db : Db Rows)
    → statuses (count_attempt order_id db).1.tables ≡ statuses db.tables
unfolding count_attempt update_rows
count_attempt_keeps order_id db =
    Outcome-tables (λ rows. statuses rows ≡ statuses db.tables) (count_attempt order_id db)
      (Outcome-statement {Q = λ _ rows. statuses rows ≡ statuses db.tables}
        {F = λ rows. statuses rows ≡ statuses db.tables} db_error
        (update_rows (of_order order_id) one_more_attempt) db refl
        λ n rows e.
          subst (λ (x : ℕ × Rows). statuses x.1 ≡ statuses db.tables) (some-injective _ _ e)
            (count_rows order_id db.tables))
      (λ _ _ k. k) λ _ k. k

-- What a settlement of a message says: it was rejected without an order id that is positive, and
-- nothing changed; it was requeued, and no event changed its status; or it was acknowledged after the
-- order service had answered without an error, and every event of its order is completed.
abbrev pub Settled :
    Option Int64 → (Int64 → Result Error (Unit {0})) → Rows → Settlement → Rows → Type 0
Settled payload cancel before rejected after =
    ((id : Int64) → payload ≡ some id → is_positive id ≡ false) × (after ≡ before)
Settled payload cancel before requeued after =
    ((id : Int64) × (payload ≡ some id) × (is_positive id ≡ true))
    × (statuses after ≡ statuses before)
Settled payload cancel before acknowledged after =
    (id : Int64) × (payload ≡ some id)
    × (is_positive id ≡ true)
    × (cancel id ≡ ok tt)
    × All (IsDone id) after

settle_completed-Settled :
    (id : Int64) (cancel : Int64 → Result Error (Unit {0})) (before : Rows)
    (r : Result Error ℕ × Db Rows)
    → is_positive id ≡ true
    → cancel id ≡ ok tt
    → Outcome (λ _ rows. All (IsDone id) rows) (λ rows. rows ≡ before) r
    → Settled (some id) cancel before (settle_completed r).0 (settle_completed r).1.tables
settle_completed-Settled id cancel before (ok n, db) p c h = (id, refl, p, c, h.satisfies)
settle_completed-Settled id cancel before (err e, db) p c h =
    ((id, refl, p), ap statuses h.satisfies)

settle_cancelled-Settled :
    (id : Int64) (cancel : Int64 → Result Error (Unit {0})) (answer : Result Error (Unit {0}))
    (db : Db Rows)
    → is_positive id ≡ true
    → cancel id ≡ answer
    → Settled
        (some id)
        cancel
        db.tables
        (settle_cancelled id answer db).0
        (settle_cancelled id answer db).1.tables
unfolding settle_cancelled
settle_cancelled-Settled id cancel (err e) db p c = ((id, refl, p), count_attempt_keeps id db)
settle_cancelled-Settled id cancel (ok u) db p c =
    settle_completed-Settled id cancel db.tables _ p c (complete_event-IsDone id db)

-- A message is rejected only if it has no positive order id, and then nothing changes; if it is
-- requeued, no event changes its status; and it is acknowledged only after the order service answered
-- the cancellation of its order without an error and every event of the order is completed, whatever
-- statement fails.
pub handle_delivery-Settled :
    (payload : Option Int64) (cancel : Int64 → Result Error (Unit {0})) (db : Db Rows)
    → Settled payload cancel db.tables
        (handle_delivery payload cancel db).0
        (handle_delivery payload cancel db).1.tables
unfolding handle_delivery
handle_delivery-Settled none cancel db = (λ id e. ground arith, refl)
handle_delivery-Settled (some id) cancel db = elim (Bool-cases (is_positive id)) [
  | inl positive ↦ rw positive (settle_cancelled-Settled id cancel (cancel id) db positive refl)
  | inr invalid ↦ rw invalid (λ i e. ground arith, refl)
]
