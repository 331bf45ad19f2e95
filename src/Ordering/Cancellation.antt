-- ===== src/Ordering/Cancellation.antt =====
-- `Cancel`, `TimeoutCancel` and `cancel` of internal/ordersvc/order.go, in two parts, before and
-- after the call of the inventory service.
use Prim.Native.String.{String}
use go_order_management_syst.Prelude.{ℕ, Bool, true, ◌&&◌, Option, none, some, ◌==◌, if◌then◌else◌}
use go_order_management_syst.Prelude.Int64.{Int64}
use go_order_management_syst.Database.{
  Db, Result, ok, err, ◌>>=◌, ◌>>◌, pure, raise, guard, statement, transaction, attempt, recover,
}
use go_order_management_syst.Ordering.Store.{
  Tables, Order, pending, cancelling, cancelled, RemoteError, Error, order_not_found,
  invalid_order_state, compensation_required, remote_error, db_error, is_status, visible,
  update_order, set_status, set_status_reason, complete_outbox,
}
use go_order_management_syst.Ordering.Payment.{
  Statements, Begun, settled, claimed, load_for_transition, require_reconciliation,
}

unfoldable pub claim_cancellation : ℕ → Int64 → Int64 → Bool → Order → Statements Begun
claim_cancellation now user_id order_id system order = do
  guard (is_status order.status pending) invalid_order_state
  rows ← statement db_error (
      update_order now order_id (λ o. visible system user_id o && is_status o.status pending)
        (set_status cancelling))
  guard (rows == 1) invalid_order_state
  pure (claimed order)

unfoldable pub begin_cancellation : ℕ → Int64 → Int64 → Bool → Statements Begun
begin_cancellation now user_id order_id system = do
  order ← load_for_transition user_id order_id system
  if is_status order.status cancelled
      then pure (settled order)
      else claim_cancellation now user_id order_id system order

unfoldable pub cancellation_body : ℕ → Int64 → Statements (Unit {0})
cancellation_body now order_id = do
  rows ← statement db_error (
      update_order now order_id (λ o. is_status o.status cancelling)
        (set_status_reason cancelled none))
  guard (rows == 1) compensation_required
  statement db_error (complete_outbox order_id)

-- The part behind `s.inventory.Release`, by its answer.
unfoldable pub end_cancellation :
    ℕ → Int64 → Int64 → Bool → Result RemoteError (Unit {0}) → Statements Order
end_cancellation now user_id order_id system (err e) = do
  attempt (
      statement db_error (
        update_order now order_id (λ o. is_status o.status cancelling)
          (set_status_reason pending (some (remote_error e)))))
  raise (remote_error e)
end_cancellation now user_id order_id system (ok _) = do
  recover (transaction db_error (cancellation_body now order_id))
      (require_reconciliation now order_id)
  load_for_transition user_id order_id system

-- `cancel`, with the inventory service's answers to `Release`.
unfoldable pub resume_cancellation :
    ℕ → (String → Result RemoteError (Unit {0})) → Int64 → Int64 → Bool → Begun → Statements Order
resume_cancellation now release user_id order_id system (settled order) = pure order
resume_cancellation now release user_id order_id system (claimed order) =
    end_cancellation now user_id order_id system (release order.reservation_id)

unfoldable pub cancel :
    ℕ → (String → Result RemoteError (Unit {0})) → Int64 → Int64 → Bool → Statements Order
cancel now release user_id order_id system = do
  begun ← begin_cancellation now user_id order_id system
  resume_cancellation now release user_id order_id system begun

-- The error that `TimeoutCancel` returns for the outcome of `cancel`.
unfoldable pub timeout_result : Result Error Order → Option Error
timeout_result (ok order) = none
timeout_result (err invalid_order_state) = none
timeout_result (err order_not_found) = none
timeout_result (err e) = some e

unfoldable pub timeout_cancel :
    ℕ → (String → Result RemoteError (Unit {0})) → Int64 → Db Tables → Option Error × Db Tables
timeout_cancel now release order_id db =
    let (r, db') = cancel now release 0 order_id true db in (timeout_result r, db')
