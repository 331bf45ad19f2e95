-- ===== src/Ordering/Life.antt =====
-- The requests for one order as they run side by side: the claim of an order by a payment or a
-- cancellation and what follows the answer of the inventory service, with other requests in between, over a database whose statements may fail.
pub mod Exclusion
pub mod Exclusive
pub mod Statements
mod Steps
pub mod Whole
use go_order_management_syst.Prelude.{
  ℕ, ◌+◌, ◌-◌, Bool, true, false, ◌||◌, List, [], ◌∷◌, zero, suc,
}
use go_order_management_syst.Prelude.Int64.{Int64}
use go_order_management_syst.Database.{Db, Result, ok, err}
use go_order_management_syst.Ordering.Store.{Order, RemoteError, Error, Tables}
use go_order_management_syst.Ordering.Payment.{
  Begun, settled, claimed, claim_payment, end_payment, finish_order,
}
use go_order_management_syst.Ordering.Cancellation.{claim_cancellation, end_cancellation}

-- The payments and cancellations that wait for the inventory service, and whether it ever answered
-- one of them without an error.
pub record World : Type 0 where
  pub db : Db Tables
  pub payments : ℕ
  pub cancellations : ℕ
  pub confirmed : Bool
  pub released : Bool

pub data Event : Type 0 where
  -- a request of this user claims the order, which it has read earlier, as this row
  pay_claims : ℕ → Int64 → Order → Event
  cancel_claims : ℕ → Int64 → Bool → Order → Event
  -- the inventory service answers a waiting request
  pay_ends : ℕ → Int64 → Result RemoteError (Unit {0}) → Event
  cancel_ends : ℕ → Int64 → Bool → Result RemoteError (Unit {0}) → Event
  finishes : ℕ → Int64 → Event
  -- the service stops, and the waiting requests are lost
  stops : Event
  -- the coming statements fail or not, as listed
  faults_come : List Bool → Event

abbrev pub claims : Result Error Begun → ℕ
claims (ok (claimed order)) = 1
claims _ = 0

abbrev pub is_ok : {E A : Type 0} → Result E A → Bool
is_ok (ok a) = true
is_ok (err e) = false

unfoldable pub payment_begun : World → Result Error Begun × Db Tables → World
payment_begun w (r, db) = record w { db = db; payments = w.payments + claims r }

unfoldable pub cancellation_begun : World → Result Error Begun × Db Tables → World
cancellation_begun w (r, db) = record w { db = db; cancellations = w.cancellations + claims r }

-- The request ends, and so many others of its kind still wait.
unfoldable pub payment_ended :
    ℕ → World → Result RemoteError (Unit {0}) → Result Error Order × Db Tables → World
payment_ended others w answer r = record w {
  db = r.1;
  payments = others;
  confirmed = is_ok answer || w.confirmed;
}

unfoldable pub cancellation_ended :
    ℕ → World → Result RemoteError (Unit {0}) → Result Error Order × Db Tables → World
cancellation_ended others w answer r = record w {
  db = r.1;
  cancellations = others;
  released = is_ok answer || w.released;
}

abbrev pub when_waiting : ℕ → World → (ℕ → World) → World
when_waiting zero w next = w
when_waiting (suc n) w next = next n

-- An answer without a request that waits for it does nothing.
unfoldable pub step : Int64 → World → Event → World
step id w (pay_claims now user_id order) = payment_begun w (claim_payment now user_id id order w.db)
step id w (cancel_claims now user_id system order) =
    cancellation_begun w (claim_cancellation now user_id id system order w.db)
step id w (pay_ends now user_id answer) =
    when_waiting w.payments w
      λ others. payment_ended others w answer (end_payment now user_id id answer w.db)
step id w (cancel_ends now user_id system answer) = when_waiting w.cancellations w λ others.
    cancellation_ended others w answer (end_cancellation now user_id id system answer w.db)
step id w (finishes now user_id) = record w { db = (finish_order now user_id id w.db).1 }
step id w stops = record w { payments = 0; cancellations = 0 }
step id w (faults_come faults) = record w { db = record { tables = w.db.tables; faults = faults } }

unfoldable pub run : Int64 → World → List Event → World
unfolding step
run id w [] = w
run id w (e ∷ es) = run id (step id w e) es

abbrev pub idle : Db Tables → World
idle db = record { db = db; payments = 0; cancellations = 0; confirmed = false; released = false }
