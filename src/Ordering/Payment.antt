-- ===== src/Ordering/Payment.antt =====
-- `Pay`, `Finish`, `Get` and `loadForTransition` of internal/ordersvc/order.go. `Pay` is its two
-- parts, before and after the call of the inventory service; other requests may run in between.
use Prim.Native.String.{String}
use go_order_management_syst.Prelude.{ℕ, Bool, true, false, ◌&&◌, none, some, ◌==◌, if◌then◌else◌}
use go_order_management_syst.Prelude.Int64.{Int64}
use go_order_management_syst.Database.{
  Db, Result, ok, err, ◌>>=◌, ◌>>◌, pure, raise, guard, or_raise, statement, query, transaction,
  attempt, recover,
}
use go_order_management_syst.Database as Database
use go_order_management_syst.Ordering.Store.{
  Order, pending, paying, paid, finished, reconciliation_required, RemoteError, Error,
  order_not_found, invalid_order_state, compensation_required, remote_error, db_error, Tables,
  is_status, visible, find_order, update_order, set_status, set_status_reason, complete_outbox,
}

abbrev pub Statements : Type 0 → Type 0
Statements A = Database.Action Tables Error A

-- `loadForTransition`, and `Get` with the flag `false`.
unfoldable pub load_for_transition : Int64 → Int64 → Bool → Statements Order
load_for_transition user_id order_id system = do
  found ← query db_error (find_order system user_id order_id)
  or_raise found order_not_found

-- What the first part of `Pay` or `cancel` finds: the order is there already, or it is claimed and
-- the inventory service is to be called.
pub data Begun : Type 0 where
  settled : Order → Begun
  claimed : Order → Begun

unfoldable pub claim_payment : ℕ → Int64 → Int64 → Order → Statements Begun
claim_payment now user_id order_id order = do
  guard (is_status order.status pending) invalid_order_state
  rows ← statement db_error (
      update_order now order_id (λ o. visible false user_id o && is_status o.status pending)
        (set_status paying))
  guard (rows == 1) invalid_order_state
  pure (claimed order)

unfoldable pub begin_payment : ℕ → Int64 → Int64 → Statements Begun
begin_payment now user_id order_id = do
  order ← load_for_transition user_id order_id false
  if is_status order.status paid
      then pure (settled order)
      else claim_payment now user_id order_id order

unfoldable pub payment_body : ℕ → Int64 → Statements (Unit {0})
payment_body now order_id = do
  rows ←
      statement db_error
        (update_order now order_id (λ o. is_status o.status paying) (set_status_reason paid none))
  guard (rows == 1) compensation_required
  statement db_error (complete_outbox order_id)

unfoldable pub require_reconciliation : ℕ → Int64 → Error → Statements (Unit {0})
require_reconciliation now order_id e = do
  attempt (
      statement db_error (
        update_order now order_id (λ _. true) (set_status_reason reconciliation_required (some e))))
  raise compensation_required

-- The part behind `s.inventory.Confirm`, by its answer.
unfoldable pub end_payment : ℕ → Int64 → Int64 → Result RemoteError (Unit {0}) → Statements Order
end_payment now user_id order_id (err e) = do
  attempt (
      statement db_error (
        update_order now order_id (λ o. is_status o.status paying)
          (set_status_reason pending (some (remote_error e)))))
  raise (remote_error e)
end_payment now user_id order_id (ok _) = do
  recover (transaction db_error (payment_body now order_id)) (require_reconciliation now order_id)
  load_for_transition user_id order_id false

-- `Pay`, with the inventory service's answers to `Confirm`.
unfoldable pub resume_payment :
    ℕ → (String → Result RemoteError (Unit {0})) → Int64 → Int64 → Begun → Statements Order
resume_payment now confirm user_id order_id (settled order) = pure order
resume_payment now confirm user_id order_id (claimed order) =
    end_payment now user_id order_id (confirm order.reservation_id)

unfoldable pub pay : ℕ → (String → Result RemoteError (Unit {0})) → Int64 → Int64 → Statements Order
pay now confirm user_id order_id = do
  begun ← begin_payment now user_id order_id
  resume_payment now confirm user_id order_id begun

-- `Finish`
unfoldable pub finish_order : ℕ → Int64 → Int64 → Statements Order
finish_order now user_id order_id = do
  rows ← statement db_error (
      update_order now order_id (λ o. visible false user_id o && is_status o.status paid)
        (set_status finished))
  guard (rows == 1) invalid_order_state
  load_for_transition user_id order_id false
