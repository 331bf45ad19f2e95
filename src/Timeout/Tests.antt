-- ===== src/Timeout/Tests.antt =====
-- Runs of the timeout worker.
use go_order_management_syst.Prelude.{◌≡◌, refl, false, [], ◌∷◌, none, some}
use go_order_management_syst.Prelude.Int64.{Int64}
use go_order_management_syst.Database.{
  Db, Result, ok, continue, statement, query, transaction, guard,
}
use go_order_management_syst.Timeout.Outbox.{
  OutboxEvent, event_pending, event_published, Error, Rows, WorkerConfig, claim_pending, claim_body,
  lease_batch, update_rows,
}
use go_order_management_syst.Timeout.Publish.{
  Publication, confirmed, publish_pending, publish_each, publish_one, mark_outbox_published,
}
use go_order_management_syst.Timeout.Delivery.{Settled, handle_delivery, handle_delivery-Settled}
use go_order_management_syst.Prelude.{arith}
use go_order_management_syst.Database.Ensures.{All}
use go_order_management_syst.Timeout.Outbox.{is_one_of}
use go_order_management_syst.Timeout.Lease.{claim_pending_apart}

abbrev worker : WorkerConfig
worker = record {
  reconnect_delay = 5;
  poll_interval = 1;
  retry_delay = 5;
  batch_size = 10;
  prefetch = 10;
  call_timeout = 10;
  worker_id = "w";
  lease_duration = 30;
  publish_confirm_timeout = 5;
}

abbrev event_of_5 : OutboxEvent
event_of_5 = record {
  id = 1;
  order_id = 5;
  due_at = 60;
  status = event_pending;
  attempts = 0;
  next_attempt_at = 0;
  lease_owner = "";
  lease_until = none;
}

abbrev one_event : Db Rows
one_event = record { tables = event_of_5 ∷ []; faults = [] }

abbrev all_confirmed : OutboxEvent → Publication
all_confirmed e = confirmed

publishes_event :
    (publish_pending worker 7 all_confirmed one_event).1.tables
    ≡ record event_of_5 { status = event_published; attempts = 1; next_attempt_at = 7 } ∷ []
unfolding publish_pending publish_each publish_one mark_outbox_published claim_pending claim_body
    lease_batch update_rows continue statement query transaction guard
publishes_event = refl

abbrev cancels : Int64 → Result Error (Unit {0})
cancels id = ok tt

abbrev two_faults : Db Rows
two_faults = record { tables = event_of_5 ∷ []; faults = false ∷ [] }

handle_delivery-Settled_example :
    Settled
      (some 5)
      cancels
      (event_of_5 ∷ [])
      (handle_delivery (some 5) cancels two_faults).0
      (handle_delivery (some 5) cancels two_faults).1.tables
handle_delivery-Settled_example = handle_delivery-Settled (some 5) cancels two_faults

abbrev event_of_6 : OutboxEvent
event_of_6 = record event_of_5 { id = 2; order_id = 6; next_attempt_at = 20 }

abbrev two_events : Db Rows
two_events = record { tables = event_of_5 ∷ event_of_6 ∷ []; faults = [] }

abbrev first_leased : Db Rows
first_leased = record {
  tables = record event_of_5 { lease_owner = "w"; lease_until = some 37 } ∷ event_of_6 ∷ [];
  faults = [];
}

abbrev both_leased : Db Rows
both_leased = record {
  tables =
      record event_of_5 { lease_owner = "w"; lease_until = some 37 }
      ∷ record event_of_6 { lease_owner = "v"; lease_until = some 60 }
      ∷ [];
  faults = [];
}

abbrev other_worker : WorkerConfig
other_worker = record worker { worker_id = "v" }

claims_first : claim_pending worker 7 two_events ≡ (ok (event_of_5 ∷ []), first_leased)
unfolding claim_pending claim_body lease_batch update_rows continue statement query transaction
    guard
claims_first = refl

claims_second : claim_pending other_worker 30 first_leased ≡ (ok (event_of_6 ∷ []), both_leased)
unfolding claim_pending claim_body lease_batch update_rows continue statement query transaction
    guard
claims_second = refl

claim_pending_apart_example : All (λ e. is_one_of (event_of_5 ∷ []) e ≡ false) (event_of_6 ∷ [])
claim_pending_apart_example =
    claim_pending_apart worker other_worker 7 30 two_events first_leased both_leased []
      (event_of_5 ∷ []) (event_of_6 ∷ []) ((refl, tt), (tt, tt)) (omega arith) claims_first
      claims_second
