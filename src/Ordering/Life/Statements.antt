-- ===== src/Ordering/Life/Statements.antt =====
-- What the statements of the ordering service do to the status of an order.
use mathlib.Core.Option.{some-injective}
use go_order_management_syst.Prelude.{
  ℕ, ◌≡◌, refl, sym, ap, subst, ◌∙◌, ◌⊎◌, inl, inr, Bool, Bool-cases, true, ◌&&◌, Option,
  Option-cases, none, some, ◌==◌, arith,
}
use go_order_management_syst.Prelude.Int64.{Int64}
use go_order_management_syst.Database.{Db, statement, guard, attempt, ◌>>=◌, ◌>>◌}
use go_order_management_syst.Database.Table.{find, modify, find_holds, find-modify}
use go_order_management_syst.Database.Outcome.{
  Outcome, Outcome-bind, Outcome-statement, Outcome-query, Outcome-guard, Outcome-or_raise,
  Outcome-attempt,
}
use go_order_management_syst.Ordering.Store.{
  Order, OrderStatus, Error, db_error, Tables, has_id, only_if, visible, find_order, trigger,
  update_order, complete_outbox, is_status,
}
use go_order_management_syst.Ordering.Payment.{Statements, load_for_transition}

abbrev pub status_in : Option Order → Option OrderStatus
status_in none = none
status_in (some o) = some o.status

abbrev pub status_of : Int64 → Tables → Option OrderStatus
status_of id t = status_in (find (has_id id) t.orders)

trigger_orders :
    (now : ℕ) (id : Int64) (old new : OrderStatus) (t : Tables)
    → (trigger now id old new t).orders ≡ t.orders
unfolding trigger
trigger_orders now id old new t = ground arith

-- An update changes no row, or the order with the id from one that meets the condition.
abbrev Updated : Int64 → (Order → Bool) → (Order → Order) → Tables → ℕ → Tables → Type 0
Updated id condition change t n t' =
    ((n ≡ 0) × (t' ≡ t))
    ⊎ ((n ≡ 1)
        × (o : Order) × (find (has_id id) t.orders ≡ some o)
        × (condition o ≡ true)
        × (find (has_id id) t'.orders ≡ some (change o)))

updated_row :
    (now : ℕ) (id : Int64) (change : Order → Order) (t : Tables) (o : Order)
    → ((o : Order) → (change o).id ≡ o.id)
    → find (has_id id) t.orders ≡ some o
    → (find
          (has_id id)
          (trigger now id o.status
            (change o).status
            (record t { orders = modify (has_id id) (λ _. change o) t.orders })).orders
        ≡ some (change o))
updated_row now id change t o same found =
    rw
      (trigger_orders now id o.status (change o).status
        (record t { orders = modify (has_id id) (λ _. change o) t.orders }))
      (find-modify (has_id id) (λ _. change o) t.orders o found
        (ground (arith, same o, find_holds (has_id id) t.orders o found)))

pub update_order-Updated :
    (now : ℕ) (id : Int64) (condition : Order → Bool) (change : Order → Order) (t : Tables) (n : ℕ)
    (t' : Tables)
    → ((o : Order) → (change o).id ≡ o.id)
    → update_order now id condition change t ≡ some (n, t')
    → Updated id condition change t n t'
unfolding update_order
update_order-Updated now id condition change t n t' same e =
    elim (Option-cases (find (has_id id) t.orders)) [
      | inl missing ↦ inl (ground arith)
      | inr (o, found) ↦ elim (Bool-cases (condition o)) [
        | inl met ↦
            let same_tables : trigger now id o.status (change o).status
                  (record t { orders = modify (has_id id) (λ _. change o) t.orders })
                ≡ t' =
              ground arith in
            inr (
              ground arith,
              o,
              found,
              met,
              subst (λ (u : Tables). find (has_id id) u.orders ≡ some (change o)) same_tables
                  (updated_row now id change t o same found),
            )
        | inr unmet ↦ inl (ground arith)
      ]
    ]

-- The update's effect on the status, for a change that sets it.
pub update_order-status :
    (now : ℕ) (id : Int64) (condition : Order → Bool) (change : Order → Order) (new : OrderStatus)
    (t : Tables) (n : ℕ) (t' : Tables)
    → ((o : Order) → ((change o).id ≡ o.id) × ((change o).status ≡ new))
    → update_order now id condition change t ≡ some (n, t')
    → ((n ≡ 0) × (t' ≡ t))
      ⊎ ((n ≡ 1)
          × (status_of id t' ≡ some new)
          × (o : Order) × (status_of id t ≡ some o.status)
          × (condition o ≡ true))
update_order-status now id condition change new t n t' sets e =
    elim (update_order-Updated now id condition change t n t' (λ o. (sets o).0) e) [
      | inl same ↦ inl same
      | inr (one, o, found, met, after) ↦
          inr (one, ap status_in after ∙ ap some (sets o).1, o, ap status_in found, met)
    ]

pub is_status_sound : (s s' : OrderStatus) → is_status s s' ≡ true → s ≡ s'
is_status_sound s s' e = ground arith

-- An update that has to change the order, and what follows it.
pub guarded_update :
    {A : Type 0} {Q : A → Tables → Type 0} {F : Tables → Type 0} (now : ℕ) (id : Int64)
    (condition : Order → Bool) (change : Order → Order) (new : OrderStatus) (e : Error)
    (rest : Statements A) (db : Db Tables)
    → ((o : Order) → ((change o).id ≡ o.id) × ((change o).status ≡ new))
    → F db.tables
    → ((o : Order) (db' : Db Tables)
        → status_of id db.tables ≡ some o.status
        → condition o ≡ true
        → status_of id db'.tables ≡ some new
        → Outcome Q F (rest db'))
    → Outcome Q F (
        (do
          rows ← statement db_error (update_order now id condition change)
          guard (rows == 1) e
          rest)
          db)
guarded_update {F = F} now id condition change new e rest db sets fails follows =
    Outcome-bind
      {Q = λ n t.
        ((n ≡ 0) × (t ≡ db.tables))
        ⊎ ((n ≡ 1)
            × (status_of id t ≡ some new)
            × (o : Order) × (status_of id db.tables ≡ some o.status)
            × (condition o ≡ true))}
      (Outcome-statement _ _ db fails
        λ n t eq. update_order-status now id condition change new db.tables n t sets eq)
      λ n db1 updated. elim updated [
        | inl (none_changed, same) ↦
            Outcome-bind {Q = λ _ _. ⊥}
              (Outcome-guard _ _ db1 (λ _. subst F (sym same) fails) λ one. ground arith)
              λ _ _ never. absurd never
        | inr (changed, after, o, before, met) ↦
            Outcome-bind {Q = λ _ t. t ≡ db1.tables}
              (Outcome-guard _ _ db1 (λ zero_rows. ground arith) λ _. refl)
              λ _ db2 same. follows o db2 before met (ap (status_of id) same ∙ after)
      ]

pub holds_status : (b : Bool) (s s' : OrderStatus) → b && is_status s s' ≡ true → s ≡ s'
holds_status b s s' h = is_status_sound s s' (ground arith)

only_if-status :
    (condition : Order → Bool) (found : Option Order) (o : Order)
    → only_if condition found ≡ some o
    → status_in found ≡ some o.status
only_if-status condition none o e = ground arith
only_if-status condition (some x) o e = ground arith

-- What holds of the tables, and the loaded order is theirs.
abbrev pub Loaded : Int64 → (Tables → Type 0) → Order → Tables → Type 0
Loaded id P o t = P t × (status_of id t ≡ some o.status)

pub load_lem :
    {P F : Tables → Type 0} (user_id id : Int64) (system : Bool) (db : Db Tables)
    → P db.tables
    → F db.tables
    → Outcome (Loaded id P) F (load_for_transition user_id id system db)
unfolding load_for_transition
load_lem {P = P} {F = F} user_id id system db p f =
    Outcome-bind {Q = λ found t. (P t × F t) × (found ≡ find_order system user_id id t)}
      (Outcome-query _ _ db f ((p, f), refl))
      λ found db1 h. Outcome-or_raise found _ db1 h.0.1 λ o e. (
        h.0.0,
        only_if-status (visible system user_id) (find (has_id id) db1.tables.orders) o
            (sym h.1 ∙ e),
      )

only_if-some :
    (condition : Order → Bool) (found : Option Order) (o : Order)
    → only_if condition found ≡ some o
    → found ≡ some o
only_if-some condition found o e = ground arith

-- The order that is loaded is the one in the tables.
pub load_row :
    (user_id id : Int64) (system : Bool) (db : Db Tables)
    → Outcome
        (λ o t. (t ≡ db.tables) × (find (has_id id) db.tables.orders ≡ some o))
        (λ t. t ≡ db.tables)
        (load_for_transition user_id id system db)
unfolding load_for_transition
load_row user_id id system db =
    Outcome-bind {Q = λ found t. (t ≡ db.tables) × (found ≡ find_order system user_id id db.tables)}
      (Outcome-query _ _ db refl (refl, refl))
      λ found db1 h. Outcome-or_raise found _ db1 h.0 λ o e. (
        h.0,
        only_if-some (visible system user_id) (find (has_id id) db.tables.orders) o (sym h.1 ∙ e),
      )

pub complete_outbox-status :
    (id : Int64) (s : Option OrderStatus) (t t' : Tables) (u : Unit {0})
    → status_of id t ≡ s
    → complete_outbox id t ≡ some (u, t')
    → status_of id t' ≡ s
complete_outbox-status id s t t' u before e =
    subst (λ x. status_of id x.1 ≡ s) (some-injective _ _ e) before

abbrev pub Either : OrderStatus → OrderStatus → Option OrderStatus → Type 0
Either s s' now = (now ≡ some s) ⊎ (now ≡ some s')

-- An update whose result is dropped sets the status or leaves it.
pub attempted_update :
    {F : Tables → Type 0} (now : ℕ) (id : Int64) (condition : Order → Bool) (change : Order → Order)
    (new old : OrderStatus) (db : Db Tables)
    → ((o : Order) → ((change o).id ≡ o.id) × ((change o).status ≡ new))
    → status_of id db.tables ≡ some old
    → Outcome
        (λ _ t. Either new old (status_of id t))
        F
        (attempt (statement db_error (update_order now id condition change)) db)
attempted_update now id condition change new old db sets before =
    Outcome-attempt (statement db_error (update_order now id condition change)) db (
      Outcome-statement db_error (update_order now id condition change) db (inr before) λ n t eq.
        elim (update_order-status now id condition change new db.tables n t sets eq) [
          | inl (none_changed, same) ↦ inr (ap (status_of id) same ∙ before)
          | inr (changed, after, o, found, met) ↦ inl after
        ])
