-- ===== src/Monolith/Replay.antt =====
-- A repeated `CreateOrder` of internal/service/order_service.go.
mod Frames
mod Keyed
use Prim.Native.String.{String}
use mathlib.Core.List.{Perm}
use text.Mathlib.Text.{◌==◌ as str_eq}
use text.Mathlib.TextPositions.{eq_refl}
use go_order_management_syst.Prelude.{
  ℕ, ◌≡◌, refl, ap, sym, subst, ◌∙◌, Bool, true, false, not, List, [], ◌∷◌, some, none, Option,
  arith, ltb, ◌||◌, ◌&&◌, ◌==◌, if◌then◌else◌,
}
use go_order_management_syst.Prelude.Int64.{Int64, is_positive}
use go_order_management_syst.Database.{
  Db, ok, err, statement, query, guard, or_raise, transaction, continue,
}
use go_order_management_syst.Database.Ensures.{All, Atomic}
use go_order_management_syst.Database.Table.{find, exists, find_holds}
use go_order_management_syst.Monolith.Store.{
  Order, Tables, order_idempotency_conflict, IdempotencyKey, try_create_key, has_key,
  already_created, find_order, has_id,
}
use go_order_management_syst.Monolith.Replay.Keyed.{IsCompleted, create_order-IsCompleted}
use go_order_management_syst.Monolith.Books.{Balanced}
use go_order_management_syst.Monolith.Books.Create.{Stands, create_order-Stands}
use go_order_management_syst.Prelude.Text.{trim_space, is_empty, byte_length}
use go_order_management_syst.Monolith.Orders.Hash.{ItemRequest, request_hash}
use go_order_management_syst.Monolith.Orders.Hash.Permuted.{IsInt64Item, request_hash-perm}
use go_order_management_syst.Monolith.Orders.Create.{
  CreateRequest, Surroundings, known_order, by_key_status, replay, create_body, create_order,
  new_key,
}

-- A database with these tables, of which no statement fails.
abbrev pub healthy : Tables → Db Tables
healthy t = record { tables = t; faults = [] }

exists_of_find :
    {A : Type 0} (p : A → Bool) (xs : List A) (x : A) → find p xs ≡ some x → exists p xs ≡ true
exists_of_find p [] x e = cc
exists_of_find p (y ∷ ys) x e = ground (arith, exists_of_find p ys x)

taken_key :
    (user_id : Int64) (key hash : String) (t : Tables) (k : IdempotencyKey)
    → find (has_key user_id key) t.keys ≡ some k
    → try_create_key (new_key user_id key hash) t ≡ some (false, t)
unfolding try_create_key
taken_key user_id key hash t k found = rw (exists_of_find (has_key user_id key) t.keys k found) refl

-- The order that is known under a key, as it stands in the tables.
record Known (user_id id : Int64) (total : Int64) (t : Tables) : Type 0 where
  order : Order
  order_found : find_order user_id id t ≡ some order
  same_id : order.id ≡ id
  same_total : order.total_amount_fen ≡ total

Stands-Known :
    (user_id : Int64) (r : Order) (t : Tables)
    → Stands user_id r t
    → Known user_id r.id r.total_amount_fen t
Stands-Known user_id r t (b, (o, found, own, total)) = record {
  order = o;
  order_found = rw found (ground (arith, own));
  same_id = ground (arith, find_holds (has_id r.id) t.orders o found);
  same_total = total;
}

create_body_again :
    (s : Surroundings) (user_id : Int64) (req : CreateRequest) (hash : String) (id total : Int64)
    (t : Tables)
    → IsCompleted user_id req.idempotency_key hash id t.keys
    → (known : Known user_id id total t)
    → create_body s user_id req hash (healthy t) ≡ (ok known.order, healthy t)
unfolding create_body statement query guard or_raise replay by_key_status known_order continue
create_body_again s user_id req hash id total t (k, found, same, is, order, pos) known =
    rw (taken_key user_id req.idempotency_key hash t k found)
      (rw found (rw (same, eq_refl hash) (rw (is, order) (rw pos (rw known.order_found refl)))))

create_body_conflict :
    (s : Surroundings) (user_id : Int64) (req : CreateRequest) (hash hash' : String) (id : Int64)
    (t : Tables)
    → IsCompleted user_id req.idempotency_key hash id t.keys
    → str_eq hash hash' ≡ false
    → create_body s user_id req hash' (healthy t) ≡ (err order_idempotency_conflict, healthy t)
unfolding create_body statement query guard or_raise replay continue
create_body_conflict s user_id req hash hash' id t (k, found, same, is, order, pos) other =
    rw (taken_key user_id req.idempotency_key hash' t k found) (rw found (rw (same, other) refl))

-- What the request is tested for before the transaction.
abbrev passes : Int64 → String → Bool
passes user_id key =
    is_positive user_id && not (is_empty (trim_space key) || ltb 128 (byte_length key))

and_true : (a b : Bool) → (a && b) ≡ true → (a ≡ true) × (b ≡ true)
and_true true b h = (refl, h)
and_true false b h = cc

create_order-passes :
    (s : Surroundings) (user_id : Int64) (req : CreateRequest) (db db' : Db Tables) (r : Order)
    → create_order s user_id req db ≡ (ok r, db')
    → passes user_id req.idempotency_key ≡ true
unfolding create_order guard continue
create_order-passes s user_id req db db' r e = ground arith

transaction_again :
    (s : Surroundings) (user_id : Int64) (req : CreateRequest) (hash : String) (id total : Int64)
    (t : Tables)
    → passes user_id req.idempotency_key ≡ true
    → request_hash s.digest req.items ≡ hash
    → IsCompleted user_id req.idempotency_key hash id t.keys
    → (known : Known user_id id total t)
    → create_order s user_id req (healthy t) ≡ (ok known.order, healthy t)
unfolding create_order guard continue transaction statement
transaction_again s user_id req hash id total t passed same completed known =
    let (own, keyed) = and_true (is_positive user_id) _ passed in
    rw (own, keyed, same)
      (rw (create_body_again s user_id req hash id total t completed known) refl)

-- After a request was answered with an order, the same user's request with the same key and the same
-- items, in whatever order they are listed, is answered with the order of the same id and total, and
-- changes no table, if no statement fails.
pub create_order_again :
    (s s' : Surroundings) (user_id : Int64) (req : CreateRequest) (items : List ItemRequest)
    (db db' : Db Tables) (r : Order)
    → Balanced db.tables
    → is_positive db.tables.next_order ≡ true
    → All IsInt64Item items
    → Perm items req.items
    → s'.digest ≡ s.digest
    → create_order s user_id req db ≡ (ok r, db')
    → (o : Order) × (create_order s' user_id (record req { items = items }) (healthy db'.tables)
        ≡ (ok o, healthy db'.tables))
      × (o.id ≡ r.id)
      × (o.total_amount_fen ≡ r.total_amount_fen)
create_order_again s s' user_id req items db db' r b pos ranged perm digest e =
    let hash = request_hash s.digest req.items in
    let stands : Stands user_id r db'.tables =
      subst (Atomic db.tables (λ r t. Stands user_id r t)) e
        (create_order-Stands s user_id req db b) in
    let completed : IsCompleted user_id req.idempotency_key hash r.id db'.tables.keys =
      subst (Atomic db.tables (λ r t. IsCompleted user_id req.idempotency_key hash r.id t.keys)) e
        (create_order-IsCompleted s user_id req db pos) in
    let known = Stands-Known user_id r db'.tables stands in
    (
      known.order,
      transaction_again s' user_id (record req { items = items }) hash r.id r.total_amount_fen
          db'.tables (create_order-passes s user_id req db db' r e)
          (rw digest (request_hash-perm s.digest items req.items ranged perm)) completed known,
      known.same_id,
      known.same_total,
    )

-- After a request was answered with an order, the same user's request with the same key and items of
-- another hash is refused, and changes no table, if no statement fails.
pub create_order_conflict :
    (s s' : Surroundings) (user_id : Int64) (req : CreateRequest) (items : List ItemRequest)
    (db db' : Db Tables) (r : Order)
    → is_positive db.tables.next_order ≡ true
    → str_eq (request_hash s.digest req.items) (request_hash s'.digest items) ≡ false
    → create_order s user_id req db ≡ (ok r, db')
    → create_order s' user_id (record req { items = items }) (healthy db'.tables)
      ≡ (err order_idempotency_conflict, healthy db'.tables)
unfolding create_order guard continue transaction statement
create_order_conflict s s' user_id req items db db' r pos other e =
    let completed : IsCompleted user_id req.idempotency_key (request_hash s.digest req.items) r.id
        db'.tables.keys =
      subst
        (Atomic db.tables (λ r t.
          IsCompleted user_id req.idempotency_key (request_hash s.digest req.items) r.id t.keys))
        e (create_order-IsCompleted s user_id req db pos) in
    let (own, keyed) =
      and_true (is_positive user_id) _ (create_order-passes s user_id req db db' r e) in
    rw (own, keyed)
      (rw
        (create_body_conflict s' user_id (record req { items = items })
          (request_hash s.digest req.items) (request_hash s'.digest items) r.id db'.tables completed
          other)
        refl)
