-- ===== src/Monolith/Expiry/Publishes.antt =====
-- The rows of the outbox while the publisher of internal/ordertimeout/worker.go goes through them.
use Prim.Native.String.{String}
use text.Mathlib.Text.{◌==◌ as str_eq}
use text.Mathlib.TextEquality.{eq_iff}
use text.Mathlib.TextPositions.{eq_refl}
use go_order_management_syst.Prelude.{
  ℕ, ◌≤◌, ◌≡◌, refl, sym, subst, inl, inr, Bool, Bool-cases, true, false, not, ◌||◌, List, [], ◌∷◌,
  ◌++◌, none, some, arith, length,
}
use go_order_management_syst.Database.{Db, statement, query}
use go_order_management_syst.Database.Ensures.{All}
use go_order_management_syst.Database.Page.{take_all}
use go_order_management_syst.Database.Table.{modify, exists, select}
use go_order_management_syst.Monolith.Store.{TimeoutOutbox, Tables}
use go_order_management_syst.Monolith.Expiry.{
  Event, Publication, acknowledged, is_valid, event_of, publish_event, is_due, is_pending_event,
  oldest_first, list_pending, mark_published, publish_each, publish_batch,
}

abbrev same_name : TimeoutOutbox → TimeoutOutbox → Bool
same_name r e = str_eq e.event_id r.event_id

-- UNIQUE KEY (event_id)
abbrev pub HasDistinctIds : List TimeoutOutbox → Type 0
HasDistinctIds [] = Unit
HasDistinctIds (x ∷ xs) = All (λ r. str_eq r.event_id x.event_id ≡ false) xs × HasDistinctIds xs

-- Every row that is due is still to be published.
abbrev IsLeft : ℕ → List TimeoutOutbox → TimeoutOutbox → Type 0
IsLeft now left r = (not (is_due now r) || exists (same_name r) left) ≡ true

abbrev published : ℕ → TimeoutOutbox → TimeoutOutbox
published now e = record e { published_at = some now }

rest-IsLeft :
    (now : ℕ) (e r : TimeoutOutbox) (left xs : List TimeoutOutbox)
    → str_eq r.event_id e.event_id ≡ true
    → All (λ x. str_eq x.event_id r.event_id ≡ false) xs
    → All (IsLeft now (e ∷ left)) xs
    → All (IsLeft now left) xs
rest-IsLeft now e r left [] named apart h = tt
rest-IsLeft now e r left (x ∷ xs) named apart h = (
  ground (
    arith,
    h.0,
    apart.0,
    eq_iff e.event_id x.event_id,
    eq_iff r.event_id e.event_id,
    eq_iff x.event_id r.event_id,
  ),
  rest-IsLeft now e r left xs named apart.1 h.1,
)

marked-IsLeft :
    (now : ℕ) (e : TimeoutOutbox) (left rows : List TimeoutOutbox)
    → HasDistinctIds rows
    → All (IsLeft now (e ∷ left)) rows
    → All (IsLeft now left) (modify (is_pending_event e.event_id) (published now) rows)
marked-IsLeft now e left [] distinct h = tt
marked-IsLeft now e left (r ∷ rows) distinct h = elim (Bool-cases (is_pending_event e.event_id r)) [
  | inl here ↦ rw here (refl, rest-IsLeft now e r left rows (ground (arith, here)) distinct.0 h.1)
  | inr there ↦ rw there (
    ground (arith, there, h.0, eq_iff e.event_id r.event_id, eq_iff r.event_id e.event_id),
    marked-IsLeft now e left rows distinct.1 h.1,
  )
]

apart_after :
    (now : ℕ) (id other : String) (rows : List TimeoutOutbox)
    → All (λ r. str_eq r.event_id other ≡ false) rows
    → All (λ r. str_eq r.event_id other ≡ false) (modify (is_pending_event id) (published now) rows)
apart_after now id other [] h = tt
apart_after now id other (r ∷ rows) h = elim (Bool-cases (is_pending_event id r)) [
  | inl here ↦ rw here h
  | inr there ↦ rw there (h.0, apart_after now id other rows h.1)
]

distinct_after :
    (now : ℕ) (id : String) (rows : List TimeoutOutbox)
    → HasDistinctIds rows
    → HasDistinctIds (modify (is_pending_event id) (published now) rows)
distinct_after now id [] h = tt
distinct_after now id (r ∷ rows) h = elim (Bool-cases (is_pending_event id r)) [
  | inl here ↦ rw here h
  | inr there ↦ rw there (apart_after now id r.event_id rows h.0, distinct_after now id rows h.1)
]

abbrev pub healthy : Tables → Db Tables
healthy t = record { tables = t; faults = [] }

none_left :
    (now : ℕ) (rows : List TimeoutOutbox)
    → All (IsLeft now []) rows
    → All (λ r. is_due now r ≡ false) rows
none_left now [] h = tt
none_left now (r ∷ rows) h = (ground (arith, h.0), none_left now rows h.1)

publish_each_lem :
    (now retry_delay : ℕ) (broker : Event → Publication) (left : List TimeoutOutbox) (t : Tables)
    → ((e : Event) → broker e ≡ acknowledged)
    → All (λ e. is_valid (event_of e) ≡ true) left
    → HasDistinctIds t.outbox
    → All (IsLeft now left) t.outbox
    → (t' : Tables) × (publish_each now retry_delay broker left (healthy t) ≡ (none, healthy t'))
      × All (λ r. is_due now r ≡ false) t'.outbox
unfolding publish_each publish_event statement mark_published
publish_each_lem now retry_delay broker [] t acks valid distinct h =
    (t, refl, none_left now t.outbox h)
publish_each_lem now retry_delay broker (e ∷ left) t acks valid distinct h =
    let t1 : Tables = record t {
      outbox = modify (is_pending_event e.event_id) (published now) t.outbox;
    } in
    let (t', run, nothing_due) =
      publish_each_lem now retry_delay broker left t1 acks valid.1
        (distinct_after now e.event_id t.outbox distinct)
        (marked-IsLeft now e left t.outbox distinct h) in
    (t', rw (valid.0, acks (event_of e)) run, nothing_due)

exists-append :
    (p : TimeoutOutbox → Bool) (xs ys : List TimeoutOutbox)
    → exists p (xs ++ ys) ≡ (exists p xs || exists p ys)
exists-append p [] ys = refl
exists-append p (x ∷ xs) ys = ground (arith, exists-append p xs ys)

select-append :
    (p : TimeoutOutbox → Bool) (xs ys : List TimeoutOutbox)
    → select p (xs ++ ys) ≡ select p xs ++ select p ys
select-append p [] ys = refl
select-append p (x ∷ xs) ys = ground (arith, select-append p xs ys)

append-IsLeft :
    (now : ℕ) (left more rows : List TimeoutOutbox)
    → All (IsLeft now left) rows
    → All (IsLeft now (left ++ more)) rows
append-IsLeft now left more [] h = tt
append-IsLeft now left more (r ∷ rows) h = (
  ground (arith, h.0, exists-append (same_name r) left more),
  append-IsLeft now left more rows h.1,
)

due-IsLeft :
    (now : ℕ) (rows : List TimeoutOutbox)
    → All (IsLeft now (select (is_due now) (oldest_first rows))) rows
due-IsLeft now [] = tt
due-IsLeft now (r ∷ rows) =
    subst (λ left. All (IsLeft now left) (r ∷ rows))
      (sym (select-append (is_due now) (oldest_first rows) (r ∷ [])))
      (
        ground (
          arith,
          exists-append (same_name r) (select (is_due now) (oldest_first rows))
              (select (is_due now) (r ∷ [])),
          eq_refl r.event_id,
        ),
        append-IsLeft now (select (is_due now) (oldest_first rows)) (select (is_due now) (r ∷ []))
            rows (due-IsLeft now rows),
      )

-- If the database and RabbitMQ answer, the ids of the events differ, and the batch is large enough for
-- the due events, which are all valid: one batch ends without an error and leaves no event that is due.
pub publish_batch_empties :
    (now retry_delay batch_size : ℕ) (broker : Event → Publication) (t : Tables)
    → ((e : Event) → broker e ≡ acknowledged)
    → All (λ e. is_valid (event_of e) ≡ true) (select (is_due now) (oldest_first t.outbox))
    → HasDistinctIds t.outbox
    → length (select (is_due now) (oldest_first t.outbox)) ≤ batch_size
    → (t' : Tables) × (publish_batch now retry_delay batch_size broker (healthy t)
        ≡ (none, healthy t'))
      × All (λ r. is_due now r ≡ false) t'.outbox
unfolding publish_batch query list_pending
publish_batch_empties now retry_delay batch_size broker t acks valid distinct enough =
    rw (take_all batch_size (select (is_due now) (oldest_first t.outbox)) enough) (
      publish_each_lem now retry_delay broker (select (is_due now) (oldest_first t.outbox)) t acks
        valid distinct (due-IsLeft now t.outbox))
