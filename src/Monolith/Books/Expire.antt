-- ===== src/Monolith/Books/Expire.antt =====
-- `CancelExpiredOrder` of internal/service/order_service.go keeps the books balanced.
use Prim.Native.String.{String}
use go_order_management_syst.Prelude.{
  ℕ, ◌≡◌, refl, subst, sym, ltb, inl, inr, ◌⊎◌, Bool, true, false, some, none, Option, arith,
  Bool-cases,
}
use go_order_management_syst.Prelude.Int64.{Int64}
use go_order_management_syst.Database.{Db}
use go_order_management_syst.Database.Ensures.{
  Ensures, Ensures-mono, Atomic, Ensures-bind, Ensures-query, Ensures-guard, Ensures-pure,
  Atomic-transaction,
}
use go_order_management_syst.Database.Table.{find}
use go_order_management_syst.Monolith.Store.{
  Order, pending, Tables, TimeoutOutbox, has_id, same_status,
}
use go_order_management_syst.Monolith.Orders.Lifecycle.{
  expire_found, expire_due, expire_body, cancel_expired_order, is_event,
}
use go_order_management_syst.Monolith.Books.{Balanced}
use go_order_management_syst.Monolith.Books.Cancel.{
  IsCancelled, can_cancel, cancel_pending_order-Balanced, has_id_eq,
}

-- The order with this id waits for its payment.
abbrev pub waits : Int64 → Tables → Bool
waits id t = elim (find (has_id id) t.orders) [
  | none ↦ false
  | some o ↦ same_status o.status pending
]

IsCancelled-waits : (id : Int64) (t : Tables) → IsCancelled id t → waits id t ≡ false
IsCancelled-waits id t (o, found, gone) = ground arith

expired_waits :
    (order_id : ℕ) (order : Order) (done : Bool) (t0 t : Tables)
    → find (has_id order_id) t0.orders ≡ some order
    → same_status order.status pending ≡ true
    → (done ≡ true) × IsCancelled order.id t ⊎ (done ≡ false) × (can_cancel order t0 ≡ false)
    → waits order_id t ≡ false
expired_waits order_id order done t0 t found is_pending (inl (_, c)) =
    subst (λ id. waits id t ≡ false) (has_id_eq order_id t0.orders order found)
      (IsCancelled-waits order.id t c)
expired_waits order_id order done t0 t found is_pending (inr (_, cannot)) =
    absurd (ground (arith, has_id_eq order_id t0.orders order found))

-- An order that did not wait is left alone, with all the rest.
abbrev pub Spared : Int64 → Tables → Tables → Type 0
Spared id before t = waits id before ≡ false → t ≡ before

-- The order does not wait any more.
abbrev pub Over : Int64 → Tables → Tables → Type 0
Over id before t = Balanced t × (waits id t ≡ false) × Spared id before t

expire_found-Over :
    (now order_id : ℕ) (found : Option Order) (db : Db Tables)
    → Balanced db.tables
    → find (has_id order_id) db.tables.orders ≡ found
    → Ensures (λ _ t. Over order_id db.tables t) (expire_found now found db)
unfolding expire_found
expire_found-Over now order_id none db b e = Ensures-pure tt db (b, rw (e, waits) refl, λ _. refl)
expire_found-Over now order_id (some order) db b e =
    elim (Bool-cases (same_status order.status pending)) [
      | inl open_still ↦ rw open_still (
          Ensures-bind (cancel_pending_order-Balanced now order db b) λ done db1 h.
            Ensures-pure tt db1 (
              h.0,
              expired_waits order_id order done db.tables db1.tables e open_still h.1,
              λ spared. absurd (ground (arith, e, open_still, spared)),
            ))
      | inr moved_on ↦ rw moved_on (Ensures-pure tt db (b, rw (e, waits) moved_on, λ _. refl))
    ]

-- What `CancelExpiredOrder` leaves behind if it found this in the outbox: the tables as they were, or
-- an order that does not wait, after the deadline.
abbrev pub Expired : ℕ → Int64 → Tables → Option TimeoutOutbox → Tables → Type 0
Expired now order_id before none t = t ≡ before
Expired now order_id before (some e) t = (ltb now e.timeout_at ≡ false) × Over order_id before t

expire_due-Expired :
    (now order_id : ℕ) (outbox : Option TimeoutOutbox) (db : Db Tables)
    → Balanced db.tables
    → Ensures (λ _ t. Expired now order_id db.tables outbox t) (expire_due now order_id outbox db)
unfolding expire_due
expire_due-Expired now order_id none db b = Ensures-pure tt db refl
expire_due-Expired now order_id (some e) db b =
    Ensures-bind {Q = λ _ t. (t ≡ db.tables) × (ltb now e.timeout_at ≡ false)}
      (Ensures-guard _ _ db λ due. (refl, ground (arith, due)))
      λ _ db1 h1.
        Ensures-bind {Q = λ o t. (t ≡ db.tables) × (find (has_id order_id) t.orders ≡ o)}
          (Ensures-query _ _ db1 (h1.0, refl))
          λ found db2 h2.
            Ensures-mono
              (expire_found-Over now order_id found db2 (subst Balanced (sym h2.0) b) h2.1)
              λ _ t h. (h1.1, subst (λ x. Over order_id x t) h2.0 h)

-- `CancelExpiredOrder` leaves the tables as they were when it returns an error, whatever statements
-- fail, and also if its event is not in the outbox. Otherwise the deadline of the event has been
-- reached, the books stay balanced, the order does not wait for a payment any more, and if it did not
-- wait before, the tables are as they were.
pub cancel_expired_order-Expired :
    (now : ℕ) (event_id : String) (order_id : ℕ) (db : Db Tables)
    → Balanced db.tables
    → Atomic db.tables
        (λ _ t.
          Expired now order_id db.tables (find (is_event event_id order_id) db.tables.outbox) t)
        (cancel_expired_order now event_id order_id db)
unfolding cancel_expired_order expire_body
cancel_expired_order-Expired now event_id order_id db b =
    Atomic-transaction _ (expire_body now event_id order_id) db (
      Ensures-bind
        {Q = λ o t. (t ≡ db.tables) × (o ≡ find (is_event event_id order_id) db.tables.outbox)}
        (Ensures-query _ _ db (refl, refl))
        λ outbox db1 h1.
          Ensures-mono (expire_due-Expired now order_id outbox db1 (subst Balanced (sym h1.0) b))
            λ _ t h.
              subst (λ o. Expired now order_id db.tables o t) h1.1
                (subst (λ x. Expired now order_id x outbox t) h1.0 h))

pub Expired-Balanced :
    (now : ℕ) (id : Int64) (before : Tables) (o : Option TimeoutOutbox) (t : Tables)
    → Balanced before
    → Expired now id before o t
    → Balanced t
Expired-Balanced now id before none t b h = subst Balanced (sym h) b
Expired-Balanced now id before (some e) t b h = h.1.0
