-- ===== src/Timeout/Publish.antt =====
-- `publishPending`, `markOutboxPublished` and `markOutboxFailure`.
use go_order_management_syst.Prelude.{ℕ, ◌+◌, ◌&&◌, List, [], ◌∷◌, ◌==◌}
use go_order_management_syst.Database.{◌>>=◌, ◌>>◌, pure, raise, guard, statement}
use go_order_management_syst.Timeout.Outbox.{
  OutboxEvent, event_published, event_failed, lease_lost, publish_failed, db_error, Statements,
  WorkerConfig, update_rows, has_event_id, owned_by, drop_lease, claim_pending,
  release_claimed_leases,
}

abbrev pub published_row : ℕ → OutboxEvent → OutboxEvent
published_row now e = record (drop_lease e) {
  status = event_published;
  attempts = e.attempts + 1;
  next_attempt_at = now;
}

-- `markOutboxPublished`
unfoldable pub mark_outbox_published : WorkerConfig → ℕ → ℕ → Statements (Unit {0})
mark_outbox_published cfg now id = do
  updated ←
      statement db_error
        (update_rows (λ e. has_event_id id e && owned_by cfg.worker_id e) (published_row now))
  guard (updated == 1) lease_lost

abbrev pub failed_row : WorkerConfig → ℕ → OutboxEvent → OutboxEvent
failed_row cfg now e = record (drop_lease e) {
  status = event_failed;
  attempts = e.attempts + 1;
  next_attempt_at = now + cfg.retry_delay;
}

-- `markOutboxFailure`
unfoldable pub mark_outbox_failure : WorkerConfig → ℕ → ℕ → Statements (Unit {0})
mark_outbox_failure cfg now id = do
  updated ←
      statement db_error
        (update_rows (λ e. has_event_id id e && owned_by cfg.worker_id e) (failed_row cfg now))
  guard (updated == 1) lease_lost

-- What becomes of an event: `json.Marshal` fails, the publisher returns an error, or the broker
-- confirms it.
pub data Publication : Type 0 where
  not_marshalled not_confirmed confirmed : Publication

-- One round of the loop, with the events behind it and what remains to do for them.
unfoldable pub publish_one :
    WorkerConfig
    → ℕ
    → OutboxEvent
    → List OutboxEvent
    → Publication
    → Statements (Unit {0})
    → Statements (Unit {0})
publish_one cfg now e others not_marshalled rest = mark_outbox_failure cfg now e.id >> rest
publish_one cfg now e others not_confirmed rest = do
  mark_outbox_failure cfg now e.id
  release_claimed_leases cfg others
  raise publish_failed
publish_one cfg now e others confirmed rest = mark_outbox_published cfg now e.id >> rest

-- The loop over the claimed events.
unfoldable pub publish_each :
    WorkerConfig → ℕ → (OutboxEvent → Publication) → List OutboxEvent → Statements (Unit {0})
publish_each cfg now publish [] = pure tt
publish_each cfg now publish (e ∷ es) =
    publish_one cfg now e es (publish e) (publish_each cfg now publish es)

-- `publishPending`
unfoldable pub publish_pending :
    WorkerConfig → ℕ → (OutboxEvent → Publication) → Statements (Unit {0})
publish_pending cfg now publish = do
  events ← claim_pending cfg now
  publish_each cfg now publish events
