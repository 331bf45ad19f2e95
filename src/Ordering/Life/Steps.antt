-- ===== src/Ordering/Life/Steps.antt =====
-- What each part of a payment, a cancellation and `Finish` does to the status of its order, whatever
-- statements fail.
use go_order_management_syst.Prelude.{
  ℕ, ◌≡◌, refl, sym, ap, ◌∙◌, ◌⊎◌, inl, inr, Bool, false, Option, some,
}
use go_order_management_syst.Prelude.Int64.{Int64}
use go_order_management_syst.Database.{ok, err, Db}
use go_order_management_syst.Database.Outcome.{
  Outcome, Outcome-bind, Outcome-statement, Outcome-guard, Outcome-pure, Outcome-raise,
  Outcome-transaction, Outcome-handle,
}
use go_order_management_syst.Ordering.Store.{
  Order, OrderStatus, pending, paying, paid, finished, cancelling, cancelled,
  reconciliation_required, RemoteError, Tables,
}
use go_order_management_syst.Ordering.Payment.{
  Begun, settled, claimed, claim_payment, payment_body, require_reconciliation, end_payment,
  finish_order,
}
use go_order_management_syst.Ordering.Cancellation.{
  claim_cancellation, cancellation_body, end_cancellation,
}
use go_order_management_syst.Ordering.Life.Statements.{
  status_of, Loaded, Either, holds_status, guarded_update, load_lem, complete_outbox-status,
  attempted_update,
}

-- What the first part of a payment or a cancellation leaves: a finished order, or a claim on one that
-- was pending.
abbrev pub Began : Int64 → OrderStatus → OrderStatus → Option OrderStatus → Begun → Tables → Type 0
Began id target done before (settled o) t =
    (status_of id t ≡ before) × (o.status ≡ done) × (before ≡ some done)
Began id target done before (claimed o) t = (before ≡ some pending) × (status_of id t ≡ some target)

pub claim_payment_lem :
    (now : ℕ) (user_id id : Int64) (order : Order) (db : Db Tables) (before : Option OrderStatus)
    → status_of id db.tables ≡ before
    → Outcome
        (Began id paying paid before)
        (λ t. status_of id t ≡ before)
        (claim_payment now user_id id order db)
unfolding claim_payment
claim_payment_lem now user_id id order db before b =
    Outcome-bind {Q = λ _ t. status_of id t ≡ before} (Outcome-guard _ _ db (λ _. b) λ _. b)
      λ _ db1 b1.
        guarded_update now id _ _ paying _ _ db1 (λ _. (refl, refl)) b1
          λ o db2 found met after.
            Outcome-pure _ db2
              (sym b1 ∙ found ∙ ap some (holds_status _ o.status pending met), after)

pub claim_cancellation_lem :
    (now : ℕ) (user_id id : Int64) (system : Bool) (order : Order) (db : Db Tables)
    (before : Option OrderStatus)
    → status_of id db.tables ≡ before
    → Outcome
        (Began id cancelling cancelled before)
        (λ t. status_of id t ≡ before)
        (claim_cancellation now user_id id system order db)
unfolding claim_cancellation
claim_cancellation_lem now user_id id system order db before b =
    Outcome-bind {Q = λ _ t. status_of id t ≡ before} (Outcome-guard _ _ db (λ _. b) λ _. b)
      λ _ db1 b1.
        guarded_update now id _ _ cancelling _ _ db1 (λ _. (refl, refl)) b1
          λ o db2 found met after.
            Outcome-pure _ db2
              (sym b1 ∙ found ∙ ap some (holds_status _ o.status pending met), after)

payment_body_lem :
    (now : ℕ) (id : Int64) (db : Db Tables)
    → Outcome (λ _ t. status_of id t ≡ some paid) (λ _. Unit {0}) (payment_body now id db)
unfolding payment_body
payment_body_lem now id db =
    guarded_update now id _ _ paid _ _ db (λ _. (refl, refl)) tt
      λ o db1 before met after.
        Outcome-statement _ _ db1 tt λ u t eq. complete_outbox-status id _ db1.tables t u after eq

pub end_payment_ok :
    (now : ℕ) (user_id id : Int64) (u : Unit {0}) (db : Db Tables)
    → status_of id db.tables ≡ some paying
    → Outcome
        (Loaded id (λ t. status_of id t ≡ some paid))
        (λ t. (status_of id t ≡ some paid) ⊎ Either reconciliation_required paying (status_of id t))
        (end_payment now user_id id (ok u) db)
unfolding end_payment require_reconciliation
end_payment_ok now user_id id u db b =
    Outcome-bind {Q = λ _ t. status_of id t ≡ some paid}
      (Outcome-handle (Outcome-transaction _ _ db (payment_body_lem now id db)) λ e db1 same.
        Outcome-bind
          (attempted_update now id _ _ _ paying db1 (λ _. (refl, refl))
            (ap (status_of id) same ∙ b))
          λ _ db2 r. Outcome-raise _ db2 (inr r))
      λ _ db1 after. load_lem user_id id false db1 after (inl after)

pub end_payment_err :
    (now : ℕ) (user_id id : Int64) (e : RemoteError) (db : Db Tables)
    → status_of id db.tables ≡ some paying
    → Outcome
        (λ _ _. ⊥)
        (λ t. Either pending paying (status_of id t))
        (end_payment now user_id id (err e) db)
unfolding end_payment
end_payment_err now user_id id e db b =
    Outcome-bind (attempted_update now id _ _ _ paying db (λ _. (refl, refl)) b)
      λ _ db1 r. Outcome-raise _ db1 r

cancellation_body_lem :
    (now : ℕ) (id : Int64) (db : Db Tables)
    → Outcome (λ _ t. status_of id t ≡ some cancelled) (λ _. Unit {0}) (cancellation_body now id db)
unfolding cancellation_body
cancellation_body_lem now id db =
    guarded_update now id _ _ cancelled _ _ db (λ _. (refl, refl)) tt
      λ o db1 before met after.
        Outcome-statement _ _ db1 tt λ u t eq. complete_outbox-status id _ db1.tables t u after eq

pub end_cancellation_ok :
    (now : ℕ) (user_id id : Int64) (system : Bool) (u : Unit {0}) (db : Db Tables)
    → status_of id db.tables ≡ some cancelling
    → Outcome
        (Loaded id (λ t. status_of id t ≡ some cancelled))
        (λ t.
          (status_of id t ≡ some cancelled)
          ⊎ Either reconciliation_required cancelling (status_of id t))
        (end_cancellation now user_id id system (ok u) db)
unfolding end_cancellation require_reconciliation
end_cancellation_ok now user_id id system u db b =
    Outcome-bind {Q = λ _ t. status_of id t ≡ some cancelled}
      (Outcome-handle (Outcome-transaction _ _ db (cancellation_body_lem now id db)) λ e db1 same.
        Outcome-bind
          (attempted_update now id _ _ _ cancelling db1 (λ _. (refl, refl))
            (ap (status_of id) same ∙ b))
          λ _ db2 r. Outcome-raise _ db2 (inr r))
      λ _ db1 after. load_lem user_id id system db1 after (inl after)

pub end_cancellation_err :
    (now : ℕ) (user_id id : Int64) (system : Bool) (e : RemoteError) (db : Db Tables)
    → status_of id db.tables ≡ some cancelling
    → Outcome
        (λ _ _. ⊥)
        (λ t. Either pending cancelling (status_of id t))
        (end_cancellation now user_id id system (err e) db)
unfolding end_cancellation
end_cancellation_err now user_id id system e db b =
    Outcome-bind (attempted_update now id _ _ _ cancelling db (λ _. (refl, refl)) b)
      λ _ db1 r. Outcome-raise _ db1 r

-- What `Finish` leaves.
abbrev pub Finished : Option OrderStatus → Option OrderStatus → Type 0
Finished before after = (after ≡ before) ⊎ ((before ≡ some paid) × (after ≡ some finished))

pub finish_order_lem :
    (now : ℕ) (user_id id : Int64) (db : Db Tables)
    → Outcome
        (Loaded id (λ t. Finished (status_of id db.tables) (status_of id t)))
        (λ t. Finished (status_of id db.tables) (status_of id t))
        (finish_order now user_id id db)
unfolding finish_order
finish_order_lem now user_id id db =
    guarded_update now id _ _ finished _ _ db (λ _. (refl, refl)) (inl refl)
      λ o db1 found met after.
        let left = inr (found ∙ ap some (holds_status _ o.status paid met), after) in
        load_lem user_id id false db1 left left
