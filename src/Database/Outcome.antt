-- ===== src/Database/Outcome.antt =====
-- Postconditions of actions for both results: what holds of the value and the tables on success,
-- and what holds of the tables after an error.
use mathlib.Core.Option.{some-injective}
use go_order_management_syst.Prelude.{
  subst, ◌≡◌, refl, Bool, Bool-cases, inl, inr, true, false, List, Option, none, some,
}
use go_order_management_syst.Database.{
  Result, ok, err, Db, Action, continue, statement, query, transaction, rollback, answer, guard,
  or_raise, faulty, later, attempt, handle,
}

module _ {S E : Type 0} where
  abbrev pub Satisfies : {A : Type 0} → (A → S → Type 0) → (S → Type 0) → Result E A × Db S → Type 0
  Satisfies Q F (ok a, db) = Q a db.tables
  Satisfies Q F (err e, db) = F db.tables

  pub record Outcome {A : Type 0} (Q : A → S → Type 0) (F : S → Type 0) (r : Result E A × Db S)
      : Type 0 where
    pub satisfies : Satisfies Q F r

  pub Outcome-bind :
      {A B : Type 0} {Q : A → S → Type 0} {R : B → S → Type 0} {F : S → Type 0}
      {f : A → Action S E B} {r : Result E A × Db S}
      → Outcome Q F r
      → ((a : A) (db : Db S) → Q a db.tables → Outcome R F (f a db))
      → Outcome R F (continue f r)
  unfolding continue
  Outcome-bind {r = (ok a, db)} h k = k a db h.satisfies
  Outcome-bind {r = (err e, db)} h k = record { satisfies = h.satisfies }

  answer-Satisfies :
      {A : Type 0} (Q : A → S → Type 0) (F : S → Type 0) (e : E) (t : S) (rest : List Bool)
      (r : Option (A × S))
      → F t
      → ((a : A) (t' : S) → r ≡ some (a, t') → Q a t')
      → Satisfies Q F (answer e t rest r)
  answer-Satisfies Q F e t rest none f h = f
  answer-Satisfies Q F e t rest (some (a, t')) f h = h a t' refl

  pub Outcome-statement :
      {A : Type 0} {Q : A → S → Type 0} {F : S → Type 0} (e : E) (f : S → Option (A × S))
      (db : Db S)
      → F db.tables
      → ((a : A) (t : S) → f db.tables ≡ some (a, t) → Q a t)
      → Outcome Q F (statement e f db)
  unfolding statement
  Outcome-statement {Q = Q} {F = F} e f db h k = elim (Bool-cases (faulty db.faults)) [
    | inl down ↦ rw down (record { satisfies = h })
    | inr up ↦ rw up (record {
      satisfies = answer-Satisfies Q F e db.tables (later db.faults) (f db.tables) h k;
    })
  ]

  pub Outcome-query :
      {A : Type 0} {Q : A → S → Type 0} {F : S → Type 0} (e : E) (f : S → A) (db : Db S)
      → F db.tables
      → Q (f db.tables) db.tables
      → Outcome Q F (query e f db)
  unfolding query
  Outcome-query e f db h k = elim (Bool-cases (faulty db.faults)) [
    | inl down ↦ rw down (record { satisfies = h })
    | inr up ↦ rw up (record { satisfies = k })
  ]

  pub Outcome-guard :
      {Q : Unit {0} → S → Type 0} {F : S → Type 0} (b : Bool) (e : E) (db : Db S)
      → (b ≡ false → F db.tables)
      → (b ≡ true → Q tt db.tables)
      → Outcome Q F (guard b e db)
  unfolding guard
  Outcome-guard true e db h k = record { satisfies = k refl }
  Outcome-guard false e db h k = record { satisfies = h refl }

  pub Outcome-or_raise :
      {A : Type 0} {Q : A → S → Type 0} {F : S → Type 0} (o : Option A) (e : E) (db : Db S)
      → F db.tables
      → ((a : A) → o ≡ some a → Q a db.tables)
      → Outcome Q F (or_raise o e db)
  unfolding or_raise
  Outcome-or_raise none e db h k = record { satisfies = h }
  Outcome-or_raise (some a) e db h k = record { satisfies = k a refl }

  pub Outcome-pure :
      {A : Type 0} {Q : A → S → Type 0} {F : S → Type 0} (a : A) (db : Db S)
      → Q a db.tables
      → Outcome Q F (ok a, db)
  Outcome-pure a db h = record { satisfies = h }

  pub Outcome-raise :
      {A : Type 0} {Q : A → S → Type 0} {F : S → Type 0} (e : E) (db : Db S)
      → F db.tables
      → Outcome {A = A} Q F (err e, db)
  Outcome-raise e db h = record { satisfies = h }

  rollback-Satisfies :
      {A : Type 0} (Q : A → S → Type 0) (before : S) (r : Result E A × Db S)
      → Outcome Q (λ _. Unit {0}) r
      → Satisfies Q (λ t. t ≡ before) (rollback before r)
  rollback-Satisfies Q before (ok a, db) h = h.satisfies
  rollback-Satisfies Q before (err e, db) h = refl

  -- A transaction that fails leaves the tables as they were.
  pub Outcome-transaction :
      {A : Type 0} {Q : A → S → Type 0} (e : E) (body : Action S E A) (db : Db S)
      → Outcome Q (λ _. Unit) (body db)
      → Outcome Q (λ t. t ≡ db.tables) (transaction e body db)
  unfolding transaction
  Outcome-transaction {Q = Q} e body db h = record {
    satisfies = rollback-Satisfies Q db.tables _ (
        Outcome-bind h λ a db' q.
          Outcome-statement e (λ t. some (a, t)) db' tt
            λ b t eq. subst (λ x. Q x.0 x.1) (some-injective (a, db'.tables) (b, t) eq) q);
  }

  attempt-Satisfies :
      {A : Type 0} {Q : S → Type 0} (r : Result E A × Db S) → Outcome (λ _. Q) Q r → Q r.1.tables
  attempt-Satisfies (ok a, db) h = h.satisfies
  attempt-Satisfies (err e, db) h = h.satisfies

  -- The two results of an action whose result is dropped.
  pub Outcome-attempt :
      {A : Type 0} {Q F : S → Type 0} (m : Action S E A) (db : Db S)
      → Outcome (λ _. Q) Q (m db)
      → Outcome (λ _. Q) F (attempt m db)
  Outcome-attempt m db h = record { satisfies = attempt-Satisfies (m db) h }

  pub Outcome-handle :
      {A : Type 0} {Q : A → S → Type 0} {F G : S → Type 0} {handler : E → Action S E A}
      {r : Result E A × Db S}
      → Outcome Q F r
      → ((e : E) (db : Db S) → F db.tables → Outcome Q G (handler e db))
      → Outcome Q G (handle handler r)
  unfolding handle
  Outcome-handle {r = (ok a, db)} h k = record { satisfies = h.satisfies }
  Outcome-handle {r = (err e, db)} h k = k e db h.satisfies

  -- What holds of the tables, whatever the result.
  pub Outcome-tables :
      {A : Type 0} {Q : A → S → Type 0} {F : S → Type 0} (G : S → Type 0) (r : Result E A × Db S)
      → Outcome Q F r
      → ((a : A) (t : S) → Q a t → G t)
      → ((t : S) → F t → G t)
      → G r.1.tables
  Outcome-tables G (ok a, db) h k l = k a db.tables h.satisfies
  Outcome-tables G (err e, db) h k l = l db.tables h.satisfies

  pub Outcome-mono :
      {A : Type 0} {Q R : A → S → Type 0} {F G : S → Type 0} {r : Result E A × Db S}
      → Outcome Q F r
      → ((a : A) (t : S) → Q a t → R a t)
      → ((t : S) → F t → G t)
      → Outcome R G r
  Outcome-mono {r = (ok a, db)} h k l = record { satisfies = k a db.tables h.satisfies }
  Outcome-mono {r = (err e, db)} h k l = record { satisfies = l db.tables h.satisfies }
