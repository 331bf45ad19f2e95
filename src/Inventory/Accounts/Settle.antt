-- ===== src/Inventory/Accounts/Settle.antt =====
-- `Confirm` and `Release` of internal/inventorysvc/inventory.go keep the books balanced.
use Prim.Native.String.{String}
use mathlib.Core.Option.{some-injective}
use go_order_management_syst.Prelude.{
  ◌+◌, ◌%◌, ◌≡◌, ◌≢◌, refl, ap, sym, subst, ◌∙◌, inl, inr, Bool, true, false, List, [], ◌∷◌, some,
  arith, sum_by, Bool-cases, if◌then◌else◌,
}
use go_order_management_syst.Prelude.Int64.{Int64, is_positive, signed_ltb}
use go_order_management_syst.Prelude.Text.{trim_space, is_empty}
use go_order_management_syst.Database.{Db}
use go_order_management_syst.Database.Ensures.{
  All, Ensures, Atomic, Ensures-bind, Ensures-statement, Ensures-query, Ensures-guard,
  Ensures-or_raise, Ensures-for_each, Ensures-pure, Atomic-transaction,
}
use go_order_management_syst.Database.Table.{find, modify, find-modify, find_holds}
use go_order_management_syst.Inventory.Store.{
  Reservation, ReservationItem, ReservationStatus, reservation_pending, Tables, with_id,
  same_status, set_status, update_settle, update_status,
}
use go_order_management_syst.Inventory.Service.{
  insert_by_product, sort_by_product, settle_log, settle_item, is_release, settle, transition_body,
  transition,
}
use go_order_management_syst.Inventory.Accounts.{
  of_p, available_of, reserved_of, in_items, held, held_by, logged, moves_available, moves_house,
  AllPositive, AllItemsPositive, Balanced,
}
use go_order_management_syst.Inventory.Accounts.Statements.{
  Moved, update_settle-Moved, update_status-Holds,
}

-- Sorting keeps the quantities of every product.
in_items-insert :
    (p : Int64) (item : ReservationItem) (xs : List ReservationItem)
    → in_items p (insert_by_product item xs) ≡ of_p p item.product_id item.quantity + in_items p xs
unfolding insert_by_product
in_items-insert p item [] = refl
in_items-insert p item (x ∷ xs) = ground (arith, in_items-insert p item xs)

in_items-sort :
    (p : Int64) (xs : List ReservationItem) → in_items p (sort_by_product xs) ≡ in_items p xs
unfolding sort_by_product
in_items-sort p [] = refl
in_items-sort p (x ∷ xs) =
    omega (arith, in_items-insert p x (sort_by_product xs), in_items-sort p xs)

abbrev IsPositiveItem : ReservationItem → Type 0
IsPositiveItem item = is_positive item.quantity ≡ true

All-insert :
    (item : ReservationItem) (xs : List ReservationItem)
    → IsPositiveItem item
    → All IsPositiveItem xs
    → All IsPositiveItem (insert_by_product item xs)
unfolding insert_by_product
All-insert item [] h all = (h, tt)
All-insert item (x ∷ xs) h all = elim (Bool-cases (signed_ltb item.product_id x.product_id)) [
  | inl before ↦ rw before (h, (all.0, all.1))
  | inr after ↦ rw after (all.0, All-insert item xs h all.1)
]

All-sort : (xs : List ReservationItem) → AllPositive xs → All IsPositiveItem (sort_by_product xs)
unfolding sort_by_product
All-sort [] all = tt
All-sort (x ∷ xs) all = All-insert x (sort_by_product xs) all.0 (All-sort xs all.1)

find-AllPositive :
    (id : String) (rs : List Reservation) (r : Reservation)
    → find (with_id id) rs ≡ some r
    → AllItemsPositive rs
    → AllPositive r.items
find-AllPositive id [] r e all = cc
find-AllPositive id (x ∷ rs) r e all = elim (Bool-cases (with_id id x)) [
  | inl here ↦ subst (λ y. AllPositive y.items) (some-injective x r (rw here at e)) all.0
  | inr there ↦ find-AllPositive id rs r (rw there at e) all.1
]

set_status-AllItemsPositive :
    (id : String) (target : ReservationStatus) (rs : List Reservation)
    → AllItemsPositive rs
    → AllItemsPositive (modify (with_id id) (set_status target) rs)
set_status-AllItemsPositive id target [] all = tt
set_status-AllItemsPositive id target (r ∷ rs) all = elim (Bool-cases (with_id id r)) [
  | inl here ↦ rw here all
  | inr there ↦ rw there (all.0, set_status-AllItemsPositive id target rs all.1)
]

-- The books while the items `xs` of a reservation, found in the balanced tables `t0`, are left.
record Settling (t0 : Tables) (r : Reservation) (xs : List ReservationItem) (t : Tables)
    : Type 0 where
  reserved_left : (p : Int64) → reserved_of p t + in_items p r.items ≡ held p t0 + in_items p xs
  available_logged :
      (p : Int64)
      → available_of p t % 18446744073709551616
        ≡ logged moves_available p t.logs % 18446744073709551616
  house_logged :
      (p : Int64)
      → (available_of p t + reserved_of p t) % 18446744073709551616
        ≡ logged moves_house p t.logs % 18446744073709551616
  same_reservations : t.reservations ≡ t0.reservations

-- The books after an item is settled: the stock has moved, then the log.
settle_step-Settling :
    (releases : Bool) (id : String) (t0 : Tables) (r : Reservation) (item : ReservationItem)
    (xs : List ReservationItem) (t t1 : Tables)
    → IsPositiveItem item
    → ((p : Int64)
        → Moved p t t1 0
            (if releases then of_p p item.product_id item.quantity else 0)
            (of_p p item.product_id item.quantity)
            0)
    → Settling t0 r (item ∷ xs) t
    → Settling t0 r xs (record t1 { logs = settle_log releases id item ∷ t1.logs })
settle_step-Settling true id t0 r item xs t t1 pos moved b = record {
  reserved_left = λ p. ground (arith, moved p, b.reserved_left p);
  available_logged = λ p. ground (arith, moved p, b.available_logged p);
  house_logged = λ p. ground (arith, moved p, b.house_logged p);
  same_reservations = (moved 0).same_reservations ∙ b.same_reservations;
}
settle_step-Settling false id t0 r item xs t t1 pos moved b = record {
  reserved_left = λ p. ground (arith, moved p, b.reserved_left p);
  available_logged = λ p. ground (arith, moved p, b.available_logged p);
  house_logged = λ p. ground (arith, moved p, b.house_logged p);
  same_reservations = (moved 0).same_reservations ∙ b.same_reservations;
}

settle_item-Settling :
    (releases : Bool) (id : String) (t0 : Tables) (r : Reservation) (item : ReservationItem)
    (xs : List ReservationItem) (db : Db Tables)
    → IsPositiveItem item
    → Settling t0 r (item ∷ xs) db.tables
    → Ensures (λ _ t. Settling t0 r xs t) (settle_item releases id item db)
unfolding settle_item
settle_item-Settling releases id t0 r item xs db pos h =
    Ensures-bind {Q = λ _ t. Settling t0 r (item ∷ xs) t} (Ensures-query _ _ db h) λ found db1 h1.
      Ensures-bind {Q = λ _ t. Settling t0 r (item ∷ xs) t} (Ensures-or_raise _ _ db1 λ _ _. h1)
        λ i db2 h2.
          Ensures-bind
            {Q = λ rows t.
              update_settle releases item.product_id item.quantity db2.tables ≡ some (rows, t)}
            (Ensures-statement _ _ db2 λ rows t e. e)
            λ rows db3 e3.
              Ensures-bind
                {Q = λ _ t.
                  update_settle releases item.product_id item.quantity db2.tables ≡ some (1, t)}
                (Ensures-guard _ _ db3 λ one. ground (arith, one, e3))
                λ _ db4 e4. Ensures-statement _ _ db4 λ v t e5.
                  subst (Settling t0 r xs) (ap (λ x. x.1) (some-injective _ _ e5)) (
                    settle_step-Settling releases id t0 r item xs db2.tables db4.tables pos
                      (λ p.
                        update_settle-Moved releases p item.product_id item.quantity db2.tables
                          db4.tables pos e4)
                      h2)

update_status_rows :
    (id : String) (target : ReservationStatus) (t t' : Tables) (u : Unit {0})
    → update_status id target t ≡ some (u, t')
    → t'.reservations ≡ modify (with_id id) (set_status target) t.reservations
unfolding update_status
update_status_rows id target t t' u e = ground arith

is_target : (s target : ReservationStatus) → same_status s target ≡ true → s ≡ target
is_target s target h = ground arith

is_pending :
    (s : ReservationStatus) → same_status s reservation_pending ≡ true → s ≡ reservation_pending
is_pending s h = ground arith

settled-Balanced :
    (id : String) (target : ReservationStatus) (t0 t t' : Tables) (r : Reservation) (u : Unit {0})
    → Balanced t0
    → find (with_id id) t0.reservations ≡ some r
    → r.status ≡ reservation_pending
    → target ≢ reservation_pending
    → Settling t0 r [] t
    → update_status id target t ≡ some (u, t')
    → Balanced t'
settled-Balanced id target t0 t t' r u b found pending moves s e =
    let found1 : find (with_id id) t.reservations ≡ some r =
      ap (find (with_id id)) s.same_reservations ∙ found in
    let holds = λ (p : Int64). update_status-Holds p id target t t' r u found1 pending moves e in
    let same = λ (p : Int64). ap (sum_by (held_by p)) s.same_reservations in
    record {
      reserved_held = λ p. ground (arith, holds p, s.reserved_left p, same p);
      available_logged = λ p. ground (arith, holds p, s.available_logged p);
      house_logged = λ p. ground (arith, holds p, s.house_logged p);
      items_positive = subst AllItemsPositive (sym (update_status_rows id target t t' u e)) (
          set_status-AllItemsPositive id target t.reservations
            (subst AllItemsPositive (sym s.same_reservations) b.items_positive));
    }

-- A reservation that is in the tables as it was returned, in the status that was asked for.
abbrev pub IsSettled : String → ReservationStatus → Reservation → Tables → Type 0
IsSettled id target r t = (r.status ≡ target) × (find (with_id id) t.reservations ≡ some r)

settle-Balanced :
    (id : String) (target : ReservationStatus) (r : Reservation) (db : Db Tables)
    → Balanced db.tables
    → find (with_id id) db.tables.reservations ≡ some r
    → target ≢ reservation_pending
    → Ensures (λ s t. Balanced t × IsSettled id target s t) (settle id target r db)
unfolding settle
settle-Balanced id target r db b found moves =
    Ensures-bind {Q = λ _ t. (t ≡ db.tables) × (same_status r.status reservation_pending ≡ true)}
      (Ensures-guard _ _ db λ pending. (refl, pending))
      λ _ db1 h1.
        let pending : r.status ≡ reservation_pending = is_pending r.status h1.1 in
        let all = find-AllPositive id db.tables.reservations r found b.items_positive in
        let start : Settling db.tables r (sort_by_product r.items) db1.tables =
          subst (Settling db.tables r (sort_by_product r.items)) (sym h1.0) (record {
            reserved_left = λ p. omega (arith, b.reserved_held p, in_items-sort p r.items);
            available_logged = b.available_logged;
            house_logged = b.house_logged;
            same_reservations = refl;
          }) in
        Ensures-bind {Q = λ _ t. Settling db.tables r [] t}
          (Ensures-for_each IsPositiveItem (Settling db.tables r)
            (settle_item (is_release target) id)
            (λ item xs db' pos h.
              settle_item-Settling (is_release target) id db.tables r item xs db' pos h)
            (sort_by_product r.items) db1 (All-sort r.items all) start)
          λ _ db2 h2.
            let found2 : find (with_id id) db2.tables.reservations ≡ some r =
              ap (find (with_id id)) h2.same_reservations ∙ found in
            Ensures-bind {Q = λ _ t. Balanced t × IsSettled id target (set_status target r) t}
              (Ensures-statement _ _ db2 λ u t e. (
                settled-Balanced id target db.tables db2.tables t r u b found pending moves h2 e,
                (
                  refl,
                  ap (find (with_id id)) (update_status_rows id target db2.tables t u e)
                      ∙ find-modify (with_id id) (set_status target) db2.tables.reservations r
                          found2 (find_holds (with_id id) db2.tables.reservations r found2),
                ),
              ))
              λ _ db3 h3. Ensures-pure _ db3 h3

transition_body-Balanced :
    (id : String) (target : ReservationStatus) (db : Db Tables)
    → Balanced db.tables
    → target ≢ reservation_pending
    → Ensures (λ s t. Balanced t × IsSettled id target s t) (transition_body id target db)
unfolding transition_body
transition_body-Balanced id target db b moves =
    Ensures-bind {Q = λ o t. (o ≡ find (with_id id) t.reservations) × Balanced t}
      (Ensures-query _ _ db (refl, b))
      λ found db1 h1.
        Ensures-bind {Q = λ r t. (find (with_id id) t.reservations ≡ some r) × Balanced t}
          (Ensures-or_raise _ _ db1 λ r e. (sym h1.0 ∙ e, h1.1))
          λ r db2 h2. elim (Bool-cases (same_status r.status target)) [
            | inl done ↦ rw done (Ensures-pure r db2 (h2.1, (is_target r.status target done, h2.0)))
            | inr open_still ↦ rw open_still (settle-Balanced id target r db2 h2.1 h2.0 moves)
          ]

-- `Confirm` and `Release` leave the tables as they were when they return an error, whatever
-- statements fail. Otherwise the books stay balanced, and the reservation stands in the tables as it
-- is returned, in the status that was asked for.
pub transition-Balanced :
    (id : String) (target : ReservationStatus) (db : Db Tables)
    → target ≢ reservation_pending
    → Balanced db.tables
    → Atomic db.tables
        (λ r t. Balanced t × IsSettled (trim_space id) target r t)
        (transition id target db)
unfolding transition
transition-Balanced id target db moves b = elim (Bool-cases (is_empty (trim_space id))) [
  | inl blank ↦ rw blank refl
  | inr given ↦ rw given (
      Atomic-transaction _ (transition_body (trim_space id) target) db
        (transition_body-Balanced (trim_space id) target db b moves))
]
