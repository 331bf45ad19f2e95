-- ===== src/Monolith/Expiry.antt =====
-- The timeout worker of the single-process service, internal/ordertimeout/worker.go and event.go, with
-- its statements of internal/dao/order_timeout_outbox_dao.go. RabbitMQ is its answer to a publication;
-- the JSON decoder is what it makes of a message.
mod Publishes
mod Tests
use Prim.Native.String.{String}
use text.Mathlib.Text.{◌==◌ as str_eq}
use go_order_management_syst.Prelude.{
  ℕ, ◌+◌, ◌-◌, ◌/◌, Bool, true, false, not, ◌&&◌, List, [], ◌∷◌, ◌++◌, Option, none, some, ltb, leb,
  take, if◌then◌else◌,
}
use go_order_management_syst.Prelude.Int64.{Int64, is_positive}
use go_order_management_syst.Prelude.Text.{trim_space, is_empty}
use go_order_management_syst.Database.{Db, Result, ok, err, statement, query}
use go_order_management_syst.Database.Table.{modify, select}
use go_order_management_syst.Monolith.Store.{TimeoutOutbox, Tables, Error, db_error}
use go_order_management_syst.Monolith.Orders.Lifecycle.{cancel_expired_order}

-- An instant that was not set is `none`.
pub record Event : Type 0 where
  pub event_id : String
  pub order_id : Int64
  pub user_id : Int64
  pub timeout_at : Option ℕ

abbrev pub is_set : Option ℕ → Bool
is_set none = false
is_set (some t) = true

-- `Validate`: whether there is no error.
unfoldable pub is_valid : Event → Bool
is_valid e =
    not (is_empty (trim_space e.event_id))
    && is_positive e.order_id
    && is_positive e.user_id
    && is_set e.timeout_at

-- `decodeEvent`, of what the decoder made of the body.
unfoldable pub decode_event : Option Event → Option Event
unfolding is_valid
decode_event none = none
decode_event (some e) = if is_valid e then some e else none

abbrev pub is_unpublished : Option ℕ → Bool
is_unpublished none = true
is_unpublished (some t) = false

abbrev pub is_due : ℕ → TimeoutOutbox → Bool
is_due now e = is_unpublished e.published_at && leb e.next_attempt_at now

-- `Order("id ASC")`: the outbox is kept newest first.
abbrev pub oldest_first : List TimeoutOutbox → List TimeoutOutbox
oldest_first [] = []
oldest_first (e ∷ es) = oldest_first es ++ e ∷ []

-- `ListPendingOrderTimeoutOutbox`
unfoldable pub list_pending : ℕ → ℕ → Tables → List TimeoutOutbox
list_pending now limit t = take limit (select (is_due now) (oldest_first t.outbox))

abbrev pub is_pending_event : String → TimeoutOutbox → Bool
is_pending_event event_id e = str_eq e.event_id event_id && is_unpublished e.published_at

-- `MarkOrderTimeoutOutboxPublished`
unfoldable pub mark_published : String → ℕ → Tables → Option (Unit {0} × Tables)
mark_published event_id now t = some (
  tt,
  record t {
    outbox =
        modify (is_pending_event event_id) (λ e. record e { published_at = some now }) t.outbox;
  },
)

abbrev pub failed_again : ℕ → TimeoutOutbox → TimeoutOutbox
failed_again next e = record e { attempts = e.attempts + 1; next_attempt_at = next }

-- `MarkOrderTimeoutOutboxFailed`
unfoldable pub mark_failed : String → ℕ → Tables → Option (Unit {0} × Tables)
mark_failed event_id next t =
    some (tt, record t { outbox = modify (is_pending_event event_id) (failed_again next) t.outbox })

-- The errors of the worker, without their texts.
pub data WorkerError : Type 0 where
  invalid_event publish_failed mark_error : WorkerError

-- The broker's answer to a publication.
pub data Publication : Type 0 where
  not_sent unconfirmable confirmation_lost rejected acknowledged : Publication

abbrev pub event_of : TimeoutOutbox → Event
event_of e = record {
  event_id = e.event_id;
  order_id = e.order_id;
  user_id = e.user_id;
  timeout_at = some e.timeout_at;
}

abbrev pub is_acknowledged : Publication → Bool
is_acknowledged not_sent = false
is_acknowledged unconfirmable = false
is_acknowledged confirmation_lost = false
is_acknowledged rejected = false
is_acknowledged acknowledged = true

-- `publishEvent`: the error, if there is one.
unfoldable pub publish_event : (Event → Publication) → TimeoutOutbox → Option WorkerError
unfolding is_valid
publish_event broker e =
    if not (is_valid (event_of e))
    then some invalid_event
    else if is_acknowledged (broker (event_of e))
    then none
    else some publish_failed

-- `expirationMilliseconds`, as a number.
unfoldable pub expiration_milliseconds : ℕ → ℕ → ℕ
expiration_milliseconds now timeout_at =
    if ltb ((timeout_at - now) / 1000000) 1 then 1 else (timeout_at - now) / 1000000

-- A batch ends at its first error.
abbrev pub Batch : Type 0
Batch = Db Tables → Option WorkerError × Db Tables

abbrev pub after_mark : Batch → Result Error (Unit {0}) × Db Tables → Option WorkerError × Db Tables
after_mark rest (ok u, db) = rest db
after_mark rest (err e, db) = (some mark_error, db)

abbrev pub after_publish : ℕ → ℕ → String → Batch → Option WorkerError → Batch
after_publish now retry_delay event_id rest (some e) db =
    (some e, (statement db_error (mark_failed event_id (now + retry_delay)) db).1)
after_publish now retry_delay event_id rest none db =
    after_mark rest (statement db_error (mark_published event_id now) db)

unfoldable pub publish_each : ℕ → ℕ → (Event → Publication) → List TimeoutOutbox → Batch
unfolding publish_event
publish_each now retry_delay broker [] db = (none, db)
publish_each now retry_delay broker (e ∷ events) db =
    after_publish now retry_delay e.event_id (publish_each now retry_delay broker events)
      (publish_event broker e) db

abbrev pub publish_listed :
    ℕ
    → ℕ
    → (Event → Publication)
    → Result Error (List TimeoutOutbox) × Db Tables
    → Option WorkerError × Db Tables
publish_listed now retry_delay broker (ok events, db) =
    publish_each now retry_delay broker events db
publish_listed now retry_delay broker (err e, db) = (none, db)

-- `publishBatch`, at one instant.
unfoldable pub publish_batch : ℕ → ℕ → ℕ → (Event → Publication) → Batch
unfolding publish_each
publish_batch now retry_delay batch_size broker db =
    publish_listed now retry_delay broker (query db_error (list_pending now batch_size) db)

-- What becomes of a delivery: it is acknowledged, rejected for good, or put back into the queue.
pub data Settlement : Type 0 where
  acks rejects requeues : Settlement

abbrev pub settle_cancelled : Result Error (Unit {0}) × Db Tables → Settlement × Db Tables
settle_cancelled (ok u, db) = (acks, db)
settle_cancelled (err e, db) = (requeues, db)

abbrev pub settle_decoded : ℕ → Option Event → Db Tables → Settlement × Db Tables
settle_decoded now none db = (rejects, db)
settle_decoded now (some e) db =
    settle_cancelled (cancel_expired_order now e.event_id e.order_id db)

-- One round of `consumeLoop`, whose waiting is not interrupted.
unfoldable pub consume : ℕ → Option Event → Db Tables → Settlement × Db Tables
unfolding decode_event
consume now body db = settle_decoded now (decode_event body) db
