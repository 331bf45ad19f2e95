-- ===== src/Monolith/Replay/Keyed.antt =====
-- What `CreateOrder` of internal/service/order_service.go leaves under its idempotency key.
use Prim.Native.String.{String}
use text.Mathlib.TextEquality.{eq_iff}
use text.Mathlib.TextPositions.{eq_refl}
use go_order_management_syst.Prelude.{
  ◌≡◌, refl, ap, sym, subst, ◌∙◌, inl, inr, Bool, true, false, List, ◌∷◌, some, none, Option,
  Option-cases, arith, if◌then◌else◌,
}
use go_order_management_syst.Prelude.Int64.{Int64, is_positive}
use go_order_management_syst.Database.{Db}
use go_order_management_syst.Database.Ensures.{
  Ensures, Atomic, Ensures-bind, Ensures-statement, Ensures-query, Ensures-guard, Ensures-or_raise,
  Ensures-pure, Atomic-transaction, Atomic-guard,
}
use go_order_management_syst.Database.Table.{find, modify, find-modify, find_holds}
use go_order_management_syst.Monolith.Store.{
  Order, Tables, KeyStatus, IdempotencyKey, being_created, already_created, has_key, has_id,
  find_order, complete_key, try_create_key,
}
use go_order_management_syst.Monolith.Orders.Hash.{request_hash}
use go_order_management_syst.Monolith.Orders.Create.{
  CreateRequest, Surroundings, known_order, by_key_status, replay, new_key, finish_key, create_new,
  create_body, create_order,
}
use go_order_management_syst.Monolith.Replay.Frames.{
  IsOpen, create_order_row_keys, patch_order_total_keys, create_outbox_keys, order_lines_keys,
}

-- The row of the key, once it is completed with an order.
abbrev pub IsCompleted : Int64 → String → String → Int64 → List IdempotencyKey → Type 0
IsCompleted user_id key hash id ks =
    (k : IdempotencyKey) × (find (has_key user_id key) ks ≡ some k)
    × (k.request_hash ≡ hash)
    × (k.status ≡ already_created)
    × (k.order_id ≡ some id)
    × (is_positive id ≡ true)

complete_key-IsCompleted :
    (user_id : Int64) (key hash : String) (id rows : Int64) (t t' : Tables)
    → IsOpen user_id key hash t
    → is_positive id ≡ true
    → complete_key user_id key id t ≡ some (rows, t')
    → IsCompleted user_id key hash id t'.keys
unfolding complete_key
complete_key-IsCompleted user_id key hash id rows t t' (k, found, same, open_still) pos e =
    let done = λ (x : IdempotencyKey). record x { order_id = some id; status = already_created } in
    let rows_now : t'.keys ≡ modify (has_key user_id key) done t.keys = ground arith in
    (
      done k,
      ap (find (has_key user_id key)) rows_now
          ∙ find-modify (has_key user_id key) done t.keys k found
              (find_holds (has_key user_id key) t.keys k found),
      same,
      refl,
      refl,
      pos,
    )

create_new-IsCompleted :
    (s : Surroundings) (user_id : Int64) (req : CreateRequest) (hash : String) (db : Db Tables)
    → IsOpen user_id req.idempotency_key hash db.tables
    → is_positive db.tables.next_order ≡ true
    → Ensures
        (λ r t. IsCompleted user_id req.idempotency_key hash r.id t.keys)
        (create_new s user_id req db)
unfolding create_new finish_key
create_new-IsCompleted s user_id req hash db (k, found, same, opened) pos =
    Ensures-bind {Q = λ id t. (t.keys ≡ db.tables.keys) × (is_positive id ≡ true)}
      (Ensures-statement _ _ db λ id t e.
        let (keys, next) = create_order_row_keys _ id db.tables t e in (keys, rw next pos))
      λ id db1 h1.
        Ensures-bind {Q = λ _ t. t.keys ≡ db.tables.keys} (Ensures-guard _ _ db1 λ _. h1.0)
          λ _ db2 h2.
            Ensures-bind (order_lines_keys db.tables.keys id 0 req.items db2 h2) λ total db3 h3.
              Ensures-bind {Q = λ _ t. t.keys ≡ db.tables.keys}
                (Ensures-statement _ _ db3
                  λ u t e. patch_order_total_keys user_id id total db3.tables t u e ∙ h3)
                λ _ db4 h4.
                  Ensures-bind {Q = λ _ t. IsCompleted user_id req.idempotency_key hash id t.keys}
                    (Ensures-bind
                      {Q = λ _ t. IsCompleted user_id req.idempotency_key hash id t.keys}
                      (Ensures-statement _ _ db4 λ rows t e.
                        complete_key-IsCompleted user_id req.idempotency_key hash id rows db4.tables
                          t
                          (
                            k,
                            ap (find (has_key user_id req.idempotency_key)) h4 ∙ found,
                            same,
                            opened,
                          )
                          h1.1 e)
                      λ rows db5 h5. Ensures-guard _ _ db5 λ _. h5)
                    λ _ db6 h6.
                      Ensures-bind
                        {Q = λ _ t. IsCompleted user_id req.idempotency_key hash id t.keys}
                        (Ensures-statement _ _ db6 λ u t e.
                          subst (IsCompleted user_id req.idempotency_key hash id)
                            (sym (create_outbox_keys _ db6.tables t u e)) h6)
                        λ _ db7 h7. Ensures-pure _ db7 h7

known_id :
    (user_id id : Int64) (t : Tables) (r : Order) → find_order user_id id t ≡ some r → r.id ≡ id
known_id user_id id t r e = elim (Option-cases (find (has_id id) t.orders)) [
  | inl missing ↦ absurd (ground arith)
  | inr (x, found) ↦ ground (arith, find_holds (has_id id) t.orders x found)
]

known_order-IsCompleted :
    (user_id : Int64) (key hash : String) (k : IdempotencyKey) (status : KeyStatus)
    (o : Option Int64) (db : Db Tables)
    → find (has_key user_id key) db.tables.keys ≡ some k
    → k.request_hash ≡ hash
    → k.status ≡ status
    → k.order_id ≡ o
    → Ensures (λ r t. IsCompleted user_id key hash r.id t.keys) (by_key_status user_id status o db)
unfolding by_key_status known_order
known_order-IsCompleted user_id key hash k being_created o db found same is order = record {
  success = tt;
}
known_order-IsCompleted user_id key hash k already_created none db found same is order = record {
  success = tt;
}
known_order-IsCompleted user_id key hash k already_created (some id) db found same is order =
    Ensures-bind {Q = λ _ t. IsCompleted user_id key hash id t.keys}
      (Ensures-guard _ _ db λ pos. (k, found, same, is, order, pos))
      λ _ db1 h1.
        Ensures-bind
          {Q = λ o t. (o ≡ find_order user_id id t) × IsCompleted user_id key hash id t.keys}
          (Ensures-query _ _ db1 (refl, h1))
          λ found db2 h2. Ensures-or_raise _ _ db2 λ r e.
            subst (λ i. IsCompleted user_id key hash i db2.tables.keys)
              (sym (known_id user_id id db2.tables r (sym h2.0 ∙ e))) h2.1

replay-IsCompleted :
    (user_id : Int64) (key hash : String) (db : Db Tables)
    → Ensures (λ r t. IsCompleted user_id key hash r.id t.keys) (replay user_id key hash db)
unfolding replay
replay-IsCompleted user_id key hash db =
    Ensures-bind {Q = λ o t. o ≡ find (has_key user_id key) t.keys} (Ensures-query _ _ db refl)
      λ found db1 h1.
        Ensures-bind {Q = λ k t. find (has_key user_id key) t.keys ≡ some k}
          (Ensures-or_raise _ _ db1 λ k e. sym h1 ∙ e)
          λ k db2 h2.
            Ensures-bind
              {Q = λ _ t. (find (has_key user_id key) t.keys ≡ some k) × (k.request_hash ≡ hash)}
              (Ensures-guard _ _ db2 λ same. (h2, (eq_iff k.request_hash hash).0 same))
              λ _ db3 h3.
                known_order-IsCompleted user_id key hash k k.status k.order_id db3 h3.0 h3.1 refl
                  refl

new_key-IsOpen :
    (user_id : Int64) (key hash : String) (t t' : Tables)
    → try_create_key (new_key user_id key hash) t ≡ some (true, t')
    → IsOpen user_id key hash t' × (t'.next_order ≡ t.next_order)
unfolding try_create_key
new_key-IsOpen user_id key hash t t' e =
    let keys : t'.keys ≡ new_key user_id key hash ∷ t.keys = ground arith in
    (
      (
        new_key user_id key hash,
        ap (find (has_key user_id key)) keys ∙ ground (arith, eq_refl key),
        refl,
        refl,
      ),
      ground arith,
    )

create_body-IsCompleted :
    (s : Surroundings) (user_id : Int64) (req : CreateRequest) (hash : String) (db : Db Tables)
    → is_positive db.tables.next_order ≡ true
    → Ensures
        (λ r t. IsCompleted user_id req.idempotency_key hash r.id t.keys)
        (create_body s user_id req hash db)
unfolding create_body
create_body-IsCompleted s user_id req hash db pos =
    Ensures-bind
      {Q = λ acquired t.
        try_create_key (new_key user_id req.idempotency_key hash) db.tables ≡ some (acquired, t)}
      (Ensures-statement _ _ db λ acquired t e. e) λ acquired db1 e1. either_way acquired db1 e1
  where
    either_way :
        (acquired : Bool) (db1 : Db Tables)
        → try_create_key (new_key user_id req.idempotency_key hash) db.tables
          ≡ some (acquired, db1.tables)
        → Ensures
            (λ r t. IsCompleted user_id req.idempotency_key hash r.id t.keys)
            ((if acquired
                then create_new s user_id req
                else replay user_id req.idempotency_key hash)
              db1)
    either_way true db1 e1 =
        let (opened, next) =
          new_key-IsOpen user_id req.idempotency_key hash db.tables db1.tables e1 in
        create_new-IsCompleted s user_id req hash db1 opened (rw next pos)
    either_way false db1 e1 = replay-IsCompleted user_id req.idempotency_key hash db1

pub create_order-IsCompleted :
    (s : Surroundings) (user_id : Int64) (req : CreateRequest) (db : Db Tables)
    → is_positive db.tables.next_order ≡ true
    → Atomic db.tables
        (λ r t.
          IsCompleted user_id req.idempotency_key (request_hash s.digest req.items) r.id t.keys)
        (create_order s user_id req db)
unfolding create_order
create_order-IsCompleted s user_id req db pos =
    Atomic-guard
      (λ r t. IsCompleted user_id req.idempotency_key (request_hash s.digest req.items) r.id t.keys)
      _ _ _ db
      λ _.
        Atomic-guard
          (λ r t.
            IsCompleted user_id req.idempotency_key (request_hash s.digest req.items) r.id t.keys)
          _ _ _ db
          λ _.
            Atomic-transaction _ (create_body s user_id req (request_hash s.digest req.items)) db
              (create_body-IsCompleted s user_id req (request_hash s.digest req.items) db pos)
