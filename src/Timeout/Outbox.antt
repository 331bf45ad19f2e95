-- ===== src/Timeout/Outbox.antt =====
-- The rows of order_timeout_outbox_v2 as the worker uses them, its configuration, and its claims of
-- rows. Instants and durations are numbers of nanoseconds that do not overflow.
use Prim.Native.String.{String}
use text.Mathlib.Text.{◌==◌ as str_eq}
use go_order_management_syst.Prelude.{
  ℕ, ◌+◌, Bool, true, false, ◌&&◌, List, map, Option, none, some, ltb, leb, ◌==◌, if◌then◌else◌,
  length, take,
}
use go_order_management_syst.Prelude.Int64.{Int64, positive_or}
use go_order_management_syst.Prelude.Text.{trim_space, is_empty}
use go_order_management_syst.Database.{
  Action, ◌>>=◌, ◌>>◌, pure, guard, statement, query, transaction,
}
use go_order_management_syst.Database.Table.{exists, select}

pub data EventStatus : Type 0 where
  event_pending event_published event_completed event_failed : EventStatus

pub record OutboxEvent : Type 0 where
  pub id : ℕ
  pub order_id : Int64
  pub due_at : ℕ
  pub status : EventStatus
  pub attempts : ℕ
  pub next_attempt_at : ℕ
  pub lease_owner : String
  pub lease_until : Option ℕ

pub data Error : Type 0 where
  claim_incomplete lease_lost publish_failed db_error : Error

abbrev pub Rows : Type 0
Rows = List OutboxEvent

abbrev pub Statements : Type 0 → Type 0
Statements A = Action Rows Error A

-- The durations and limits of `WorkerConfig`, and the worker's id.
pub record WorkerConfig : Type 0 where
  pub reconnect_delay : Int64
  pub poll_interval : Int64
  pub retry_delay : Int64
  pub batch_size : Int64
  pub prefetch : Int64
  pub call_timeout : Int64
  pub worker_id : String
  pub lease_duration : Int64
  pub publish_confirm_timeout : Int64

abbrev pub or_fresh : String → String → String
or_fresh id fresh = if is_empty id then fresh else id

-- The defaults that `NewWorker` sets; `fresh` is a new UUID.
unfoldable pub new_worker_config : String → WorkerConfig → WorkerConfig
new_worker_config fresh cfg = record {
  reconnect_delay = positive_or cfg.reconnect_delay 5000000000;
  poll_interval = positive_or cfg.poll_interval 1000000000;
  retry_delay = positive_or cfg.retry_delay 5000000000;
  batch_size = positive_or cfg.batch_size 100;
  prefetch = positive_or cfg.prefetch 10;
  call_timeout = positive_or cfg.call_timeout 10000000000;
  worker_id = or_fresh (trim_space cfg.worker_id) fresh;
  lease_duration = positive_or cfg.lease_duration 30000000000;
  publish_confirm_timeout = positive_or cfg.publish_confirm_timeout 5000000000;
}

abbrev pub is_unpublished : EventStatus → Bool
is_unpublished event_pending = true
is_unpublished event_failed = true
is_unpublished s = false

abbrev pub lease_over : ℕ → Option ℕ → Bool
lease_over now none = true
lease_over now (some t) = ltb t now

abbrev pub is_claimable : ℕ → OutboxEvent → Bool
is_claimable now e = is_unpublished e.status && lease_over now e.lease_until

abbrev pub is_eligible : ℕ → OutboxEvent → Bool
is_eligible now e = is_claimable now e && leb e.next_attempt_at now

-- `UPDATE ... WHERE condition`; the count of the rows that were updated.
unfoldable pub update_rows :
    (OutboxEvent → Bool) → (OutboxEvent → OutboxEvent) → Rows → Option (ℕ × Rows)
update_rows condition change rows =
    some (length (select condition rows), map (λ e. if condition e then change e else e) rows)

abbrev pub has_event_id : ℕ → OutboxEvent → Bool
has_event_id id e = e.id == id

-- `id IN ?`
abbrev pub is_one_of : List OutboxEvent → OutboxEvent → Bool
is_one_of events e = exists (has_event_id e.id) events

abbrev pub owned_by : String → OutboxEvent → Bool
owned_by worker_id e = str_eq e.lease_owner worker_id

abbrev pub take_lease : WorkerConfig → ℕ → OutboxEvent → OutboxEvent
take_lease cfg now e = record e {
  lease_owner = cfg.worker_id;
  lease_until = some (now + cfg.lease_duration);
}

abbrev pub drop_lease : OutboxEvent → OutboxEvent
drop_lease e = record e { lease_owner = ""; lease_until = none }

unfoldable pub lease_batch : WorkerConfig → ℕ → List OutboxEvent → Statements (Unit {0})
lease_batch cfg now events = do
  updated ←
      statement db_error
        (update_rows (λ e. is_one_of events e && is_claimable now e) (take_lease cfg now))
  guard (updated == length events) claim_incomplete

unfoldable pub claim_body : WorkerConfig → ℕ → Statements (List OutboxEvent)
claim_body cfg now = do
  events ← query db_error (λ rows. take cfg.batch_size (select (is_eligible now) rows))
  if length events == 0 then pure tt else lease_batch cfg now events
  pure events

-- `claimPending`
unfoldable pub claim_pending : WorkerConfig → ℕ → Statements (List OutboxEvent)
claim_pending cfg now = transaction db_error (claim_body cfg now)

-- `releaseClaimedLeases`
unfoldable pub release_claimed_leases : WorkerConfig → List OutboxEvent → Statements (Unit {0})
release_claimed_leases cfg events = if length events == 0 then pure tt else (do
  statement db_error (update_rows (λ e. is_one_of events e && owned_by cfg.worker_id e) drop_lease)
  pure tt)
