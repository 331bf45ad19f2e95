-- ===== src/Timeout/Lease.antt =====
-- `claimPending` of internal/ordersvc/worker.go: what is claimed is not claimed again while its lease
-- lasts.
use mathlib.Core.Option.{some-injective}
use go_order_management_syst.Prelude.{
  ℕ, ◌+◌, ◌≤◌, ◌≡◌, refl, sym, ap, subst, ◌∙◌, inl, inr, Bool, Bool-cases, true, false, not, ◌&&◌,
  ◌||◌, List, [], ◌∷◌, map, some, arith, length, take, zero, suc, ◌==◌, if◌then◌else◌,
}
use go_order_management_syst.Database.{Db, Result, ok, err}
use go_order_management_syst.Database.Ensures.{
  All, Ensures, Atomic, Ensures-bind, Ensures-statement, Ensures-query, Ensures-guard, Ensures-pure,
  Atomic-transaction,
}
use go_order_management_syst.Database.Table.{exists, select}
use go_order_management_syst.Timeout.Outbox.{
  OutboxEvent, Rows, WorkerConfig, is_claimable, is_eligible, has_event_id, is_one_of, take_lease,
  Error, update_rows, lease_batch, claim_body, claim_pending,
}

-- The primary key.
abbrev pub Distinct : Rows → Type 0
Distinct [] = Unit
Distinct (x ∷ xs) = All (λ r. (r.id == x.id) ≡ false) xs × Distinct xs

-- The claimed rows, before they are leased.
abbrev pub due : ℕ → ℕ → Rows → Rows
due now n rows = take n (select (is_eligible now) rows)

exists-take :
    (p : OutboxEvent → Bool) (n : ℕ) (xs : Rows) → exists p (take n xs) ≡ true → exists p xs ≡ true
exists-take p zero xs h = cc
exists-take p (suc n) [] h = cc
exists-take p (suc n) (x ∷ xs) h = ground (arith, exists-take p n xs)

exists-select :
    (p q : OutboxEvent → Bool) (xs : Rows) → exists p (select q xs) ≡ true → exists p xs ≡ true
exists-select p q [] h = cc
exists-select p q (x ∷ xs) h = ground (arith, exists-select p q xs)

not_there :
    (id : ℕ) (xs : Rows) → All (λ r. (r.id == id) ≡ false) xs → exists (has_event_id id) xs ≡ false
not_there id [] h = refl
not_there id (x ∷ xs) h = rw h.0 (not_there id xs h.1)

-- A row whose id is among the claimed ones can be claimed.
abbrev IsFair : ℕ → Rows → OutboxEvent → Type 0
IsFair now events r = (not (is_one_of events r) || is_claimable now r) ≡ true

head-IsFair :
    (now : ℕ) (x : OutboxEvent) (xs : Rows)
    → All (λ r. (r.id == x.id) ≡ false) xs
    → IsFair now (select (is_eligible now) (x ∷ xs)) x
head-IsFair now x xs apart =
    ground (arith, not_there x.id xs apart, exists-select (has_event_id x.id) (is_eligible now) xs)

tail-IsFair :
    (now : ℕ) (x : OutboxEvent) (xs rest : Rows)
    → All (λ r. (r.id == x.id) ≡ false) rest
    → All (IsFair now (select (is_eligible now) xs)) rest
    → All (IsFair now (select (is_eligible now) (x ∷ xs))) rest
tail-IsFair now x xs [] apart fair = tt
tail-IsFair now x xs (r ∷ rest) apart fair =
    (ground (arith, apart.0, fair.0), tail-IsFair now x xs rest apart.1 fair.1)

All-IsFair : (now : ℕ) (xs : Rows) → Distinct xs → All (IsFair now (select (is_eligible now) xs)) xs
All-IsFair now [] h = tt
All-IsFair now (x ∷ xs) h =
    (head-IsFair now x xs h.0, tail-IsFair now x xs xs h.0 (All-IsFair now xs h.1))

-- A row is not claimed again, if it was claimed.
abbrev IsSafe : ℕ → Rows → OutboxEvent → Type 0
IsSafe later events r = (not (is_one_of events r) || not (is_claimable later r)) ≡ true

leased-IsSafe :
    (cfg : WorkerConfig) (now later n : ℕ) (events rows : Rows)
    → later ≤ now + cfg.lease_duration
    → All (IsFair now events) rows
    → All (IsSafe later (take n events)) (
        map
          (λ e.
            if is_one_of (take n events) e && is_claimable now e then take_lease cfg now e else e)
          rows)
leased-IsSafe cfg now later n events [] lasts fair = tt
leased-IsSafe cfg now later n events (r ∷ rows) lasts fair = (
  ground (arith, fair.0, exists-take (has_event_id r.id) n events),
  leased-IsSafe cfg now later n events rows lasts fair.1,
)

claimed_apart :
    (later m : ℕ) (events rows : Rows)
    → All (IsSafe later events) rows
    → All (λ e. is_one_of events e ≡ false) (due later m rows)
claimed_apart later m events rows safe =
    all_take m (select (is_eligible later) rows) (all_select rows safe)
  where
    all_take :
        (k : ℕ) (xs : Rows)
        → All (λ e. is_one_of events e ≡ false) xs
        → All (λ e. is_one_of events e ≡ false) (take k xs)
    all_take zero xs h = tt
    all_take (suc k) [] h = tt
    all_take (suc k) (x ∷ xs) h = (h.0, all_take k xs h.1)

    all_select :
        (xs : Rows)
        → All (IsSafe later events) xs
        → All (λ e. is_one_of events e ≡ false) (select (is_eligible later) xs)
    all_select [] h = tt
    all_select (x ∷ xs) h = elim (Bool-cases (is_eligible later x)) [
      | inl eligible ↦ rw eligible (ground arith, all_select xs h.1)
      | inr passed_over ↦ rw passed_over (all_select xs h.1)
    ]

none_claimed-IsSafe :
    (later : ℕ) (events rows : Rows) → (length events == 0) ≡ true → All (IsSafe later events) rows
none_claimed-IsSafe later [] [] e = tt
none_claimed-IsSafe later [] (r ∷ rows) e = (refl, none_claimed-IsSafe later [] rows e)
none_claimed-IsSafe later (x ∷ events) rows e = absurd (ground arith)

leased_rows :
    (condition : OutboxEvent → Bool) (change : OutboxEvent → OutboxEvent) (rows rows' : Rows)
    (n : ℕ)
    → update_rows condition change rows ≡ some (n, rows')
    → rows' ≡ map (λ e. if condition e then change e else e) rows
unfolding update_rows
leased_rows condition change rows rows' n e = ap (λ x. x.1) (sym (some-injective _ _ e))

lease_batch-IsSafe :
    (cfg : WorkerConfig) (now later n : ℕ) (db : Db Rows)
    → later ≤ now + cfg.lease_duration
    → Distinct db.tables
    → Ensures
        (λ _ t. All (IsSafe later (due now n db.tables)) t)
        (lease_batch cfg now (due now n db.tables) db)
unfolding lease_batch
lease_batch-IsSafe cfg now later n db lasts distinct =
    Ensures-bind {Q = λ _ t. All (IsSafe later (due now n db.tables)) t}
      (Ensures-statement _ _ db λ updated t e.
        subst (All (IsSafe later (due now n db.tables)))
          (sym (leased_rows _ (take_lease cfg now) db.tables t updated e))
          (leased-IsSafe cfg now later n (select (is_eligible now) db.tables) db.tables lasts
            (All-IsFair now db.tables distinct)))
      λ updated db1 safe. Ensures-guard _ _ db1 λ _. safe

claim_body-IsSafe :
    (cfg : WorkerConfig) (now later : ℕ) (db : Db Rows)
    → later ≤ now + cfg.lease_duration
    → Distinct db.tables
    → Ensures (λ events t. All (IsSafe later events) t) (claim_body cfg now db)
unfolding claim_body
claim_body-IsSafe cfg now later db lasts distinct =
    Ensures-bind {Q = λ events t. (events ≡ due now cfg.batch_size db.tables) × (t ≡ db.tables)}
      (Ensures-query _ _ db (refl, refl))
      λ events db1 h.
        Ensures-bind {Q = λ _ t. All (IsSafe later events) t}
          (elim (Bool-cases (length events == 0)) [
            | inl nothing ↦
                rw nothing
                  (Ensures-pure tt db1 (none_claimed-IsSafe later events db1.tables nothing))
            | inr something ↦ rw something (
                let same : due now cfg.batch_size db1.tables ≡ events =
                  ap (due now cfg.batch_size) h.1 ∙ sym h.0 in
                subst (λ es. Ensures (λ _ t. All (IsSafe later es) t) (lease_batch cfg now es db1))
                  same
                  (lease_batch-IsSafe cfg now later cfg.batch_size db1 lasts
                    (subst Distinct (sym h.1) distinct)))
          ])
          λ _ db2 safe. Ensures-pure events db2 safe

claim_body-due :
    (cfg : WorkerConfig) (now : ℕ) (db : Db Rows)
    → Ensures (λ events _. events ≡ due now cfg.batch_size db.tables) (claim_body cfg now db)
unfolding claim_body
claim_body-due cfg now db =
    Ensures-bind {Q = λ events _. events ≡ due now cfg.batch_size db.tables}
      (Ensures-query _ _ db refl)
      λ events db1 h.
        Ensures-bind {Q = λ _ _. Unit {0}} (anything _) λ _ db2 _. Ensures-pure events db2 h
  where
    anything : (r : Result Error (Unit {0}) × Db Rows) → Ensures (λ _ _. Unit {0}) r
    anything (ok a, db') = record { success = tt }
    anything (err e, db') = record { success = tt }

-- While the lease of a claim lasts, another claim of any worker, whatever statements fail, returns no
-- event that the first one returned, if the rows have distinct ids.
pub claim_pending_apart :
    (cfg cfg' : WorkerConfig) (now later : ℕ) (db db' db'' : Db Rows) (faults : List Bool)
    (events events' : List OutboxEvent)
    → Distinct db.tables
    → later ≤ now + cfg.lease_duration
    → claim_pending cfg now db ≡ (ok events, db')
    → claim_pending cfg' later (record { tables = db'.tables; faults = faults })
      ≡ (ok events', db'')
    → All (λ e. is_one_of events e ≡ false) events'
unfolding claim_pending
claim_pending_apart cfg cfg' now later db db' db'' faults events events' distinct lasts e e' =
    let safe : All (IsSafe later events) db'.tables =
      subst (Atomic db.tables (λ es t. All (IsSafe later es) t)) e (
        Atomic-transaction _ (claim_body cfg now) db
          (claim_body-IsSafe cfg now later db lasts distinct)) in
    let again : events' ≡ due later cfg'.batch_size db'.tables =
      subst (Atomic db'.tables (λ es _. es ≡ due later cfg'.batch_size db'.tables)) e' (
        Atomic-transaction _ (claim_body cfg' later)
          (record { tables = db'.tables; faults = faults })
          (claim_body-due cfg' later (record { tables = db'.tables; faults = faults }))) in
    subst (All (λ x. is_one_of events x ≡ false)) (sym again)
      (claimed_apart later cfg'.batch_size events db'.tables safe)
