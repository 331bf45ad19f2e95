-- ===== src/Ordering/Life/Exclusive.antt =====
-- A payment and a cancellation of one order exclude each other, in every interleaving.
use native.Mathlib.Numerals.{unary_clauses}
use go_order_management_syst.Prelude.{
  ℕ, ◌≡◌, refl, subst, inl, Bool, true, List, [], ◌∷◌, zero, suc, arith,
}
use go_order_management_syst.Prelude.Int64.{Int64}
use go_order_management_syst.Database.{Result, ok, err, Db}
use go_order_management_syst.Database.Outcome.{Outcome, Outcome-tables}
use go_order_management_syst.Ordering.Store.{
  paying, paid, cancelling, cancelled, RemoteError, Error, Tables,
}
use go_order_management_syst.Ordering.Payment.{Begun, settled, claimed, end_payment}
use go_order_management_syst.Ordering.Cancellation.{end_cancellation}
use go_order_management_syst.Ordering.Life.{
  World, Event, when_waiting, payment_begun, cancellation_begun, payment_ended, cancellation_ended,
  step, run, idle, pay_claims, cancel_claims, pay_ends, cancel_ends, finishes, stops, faults_come,
}
use go_order_management_syst.Ordering.Life.Statements.{status_of}
use go_order_management_syst.Ordering.Life.Exclusion.{
  Exclusive, claims_payment, claims_cancellation, stays, confirms_now, refuses_payment,
  releases_now, refuses_cancellation, finishes_now, stops-Exclusive,
}
use go_order_management_syst.Ordering.Life.Steps.{
  Began, Began, claim_payment_lem, claim_cancellation_lem, end_payment_ok, end_payment_err,
  end_cancellation_ok, end_cancellation_err, finish_order_lem,
}

abbrev pub IsExclusive : Int64 → World → Type 0
IsExclusive id w =
    Exclusive (status_of id w.db.tables) w.payments w.cancellations w.confirmed w.released

payment_begun-Exclusive :
    (id : Int64) (w : World) (r : Result Error Begun × Db Tables)
    → IsExclusive id w
    → Outcome
        (Began id paying paid (status_of id w.db.tables))
        (λ t. status_of id t ≡ status_of id w.db.tables)
        r
    → IsExclusive id (payment_begun w r)
unfolding payment_begun
payment_begun-Exclusive id w (ok (settled o), db) h b =
    simp unary_clauses (stays _ _ _ _ _ _ h b.satisfies.0)
payment_begun-Exclusive id w (ok (claimed o), db) h b =
    claims_payment _ _ _ _ _ _ h b.satisfies.0 b.satisfies.1
payment_begun-Exclusive id w (err e, db) h b = simp unary_clauses (stays _ _ _ _ _ _ h b.satisfies)

cancellation_begun-Exclusive :
    (id : Int64) (w : World) (r : Result Error Begun × Db Tables)
    → IsExclusive id w
    → Outcome
        (Began id cancelling cancelled (status_of id w.db.tables))
        (λ t. status_of id t ≡ status_of id w.db.tables)
        r
    → IsExclusive id (cancellation_begun w r)
unfolding cancellation_begun
cancellation_begun-Exclusive id w (ok (settled o), db) h b =
    simp unary_clauses (stays _ _ _ _ _ _ h b.satisfies.0)
cancellation_begun-Exclusive id w (ok (claimed o), db) h b =
    claims_cancellation _ _ _ _ _ _ h b.satisfies.0 b.satisfies.1
cancellation_begun-Exclusive id w (err e, db) h b =
    simp unary_clauses (stays _ _ _ _ _ _ h b.satisfies)

payment_ends-Exclusive :
    (id : Int64) (w : World) (now : ℕ) (user_id : Int64) (answer : Result RemoteError (Unit {0}))
    (waiting : ℕ)
    → IsExclusive id w
    → w.payments ≡ waiting
    → IsExclusive id (
        when_waiting waiting w
          λ others. payment_ended others w answer (end_payment now user_id id answer w.db))
unfolding payment_ended
payment_ends-Exclusive id w now user_id answer zero h e = h
payment_ends-Exclusive id w now user_id (ok u) (suc n) h e =
    let holds : Exclusive _ (suc n) w.cancellations w.confirmed w.released =
      subst (λ k. Exclusive (status_of id w.db.tables) k w.cancellations w.confirmed w.released) e
        h in
    Outcome-tables (λ t. Exclusive (status_of id t) n w.cancellations true w.released) _
      (end_payment_ok now user_id id u w.db (holds.pays (omega arith)))
      (λ _ t after. confirms_now _ _ _ _ _ _ holds (inl after.0))
      (λ t after. confirms_now _ _ _ _ _ _ holds after)
payment_ends-Exclusive id w now user_id (err x) (suc n) h e =
    let holds : Exclusive _ (suc n) w.cancellations w.confirmed w.released =
      subst (λ k. Exclusive (status_of id w.db.tables) k w.cancellations w.confirmed w.released) e
        h in
    Outcome-tables (λ t. Exclusive (status_of id t) n w.cancellations w.confirmed w.released) _
      (end_payment_err now user_id id x w.db (holds.pays (omega arith))) (λ _ t never. absurd never)
      (λ t after. refuses_payment _ _ _ _ _ _ holds after)

cancellation_ends-Exclusive :
    (id : Int64) (w : World) (now : ℕ) (user_id : Int64) (system : Bool)
    (answer : Result RemoteError (Unit {0})) (waiting : ℕ)
    → IsExclusive id w
    → w.cancellations ≡ waiting
    → IsExclusive id (
        when_waiting waiting w λ others.
          cancellation_ended others w answer (end_cancellation now user_id id system answer w.db))
unfolding cancellation_ended
cancellation_ends-Exclusive id w now user_id system answer zero h e = h
cancellation_ends-Exclusive id w now user_id system (ok u) (suc n) h e =
    let holds : Exclusive _ w.payments (suc n) w.confirmed w.released =
      subst (λ k. Exclusive (status_of id w.db.tables) w.payments k w.confirmed w.released) e h in
    Outcome-tables (λ t. Exclusive (status_of id t) w.payments n w.confirmed true) _
      (end_cancellation_ok now user_id id system u w.db (holds.cancels (omega arith)))
      (λ _ t after. releases_now _ _ _ _ _ _ holds (inl after.0))
      (λ t after. releases_now _ _ _ _ _ _ holds after)
cancellation_ends-Exclusive id w now user_id system (err x) (suc n) h e =
    let holds : Exclusive _ w.payments (suc n) w.confirmed w.released =
      subst (λ k. Exclusive (status_of id w.db.tables) w.payments k w.confirmed w.released) e h in
    Outcome-tables (λ t. Exclusive (status_of id t) w.payments n w.confirmed w.released) _
      (end_cancellation_err now user_id id system x w.db (holds.cancels (omega arith)))
      (λ _ t never. absurd never) (λ t after. refuses_cancellation _ _ _ _ _ _ holds after)

step-IsExclusive :
    (id : Int64) (w : World) (e : Event) → IsExclusive id w → IsExclusive id (step id w e)
unfolding step
step-IsExclusive id w (pay_claims now user_id order) h =
    payment_begun-Exclusive id w _ h (claim_payment_lem now user_id id order w.db _ refl)
step-IsExclusive id w (cancel_claims now user_id system order) h =
    cancellation_begun-Exclusive id w _ h
      (claim_cancellation_lem now user_id id system order w.db _ refl)
step-IsExclusive id w (pay_ends now user_id answer) h =
    payment_ends-Exclusive id w now user_id answer w.payments h refl
step-IsExclusive id w (cancel_ends now user_id system answer) h =
    cancellation_ends-Exclusive id w now user_id system answer w.cancellations h refl
step-IsExclusive id w (finishes now user_id) h =
    Outcome-tables (λ t. IsExclusive id (record w { db = record { tables = t; faults = [] } })) _
      (finish_order_lem now user_id id w.db) (λ _ t after. finishes_now _ _ _ _ _ _ h after.0)
      (λ t after. finishes_now _ _ _ _ _ _ h after)
step-IsExclusive id w stops h = stops-Exclusive _ _ _ _ _ h
step-IsExclusive id w (faults_come faults) h = h

run-IsExclusive :
    (id : Int64) (w : World) (es : List Event) → IsExclusive id w → IsExclusive id (run id w es)
unfolding run
run-IsExclusive id w [] h = h
run-IsExclusive id w (e ∷ es) h = run-IsExclusive id (step id w e) es (step-IsExclusive id w e h)

idle-IsExclusive : (id : Int64) (db : Db Tables) → IsExclusive id (idle db)
idle-IsExclusive id db = record {
  alone = omega arith;
  pays = ground arith;
  cancels = ground arith;
  confirms = ground arith;
  releases = ground arith;
}

-- From any database and for every sequence of steps of payments, cancellations and finishing requests
-- for one order, each of which may act on a row that it read any time earlier, of answers of the
-- inventory service, of failing statements and of restarts of the service: at most one payment or
-- cancellation waits for the inventory service, with the order in the state `paying` or
-- `cancelling`; once a payment was confirmed without an error no cancellation is waiting or was
-- released, and the order is paying, paid, finished or requires reconciliation; and once a
-- cancellation was released without an error no payment is waiting or was confirmed, and the order
-- is cancelling, cancelled or requires reconciliation.
pub run-idle-IsExclusive :
    (id : Int64) (db : Db Tables) (es : List Event) → IsExclusive id (run id (idle db) es)
run-idle-IsExclusive id db es = run-IsExclusive id (idle db) es (idle-IsExclusive id db)
