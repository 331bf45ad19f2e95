-- ===== src/Database/Ensures.antt =====
-- Postconditions of actions: what holds of the result and the tables if there was no error.
use mathlib.Core.Option.{some-injective}
use go_order_management_syst.Prelude.{
  subst, ◌≡◌, refl, List, [], ◌∷◌, Bool, Bool-cases, inl, inr, true, false, Option, none, some,
}
use go_order_management_syst.Database.{
  Result, ok, err, Db, Action, continue, statement, query, transaction, rollback, answer, guard,
  or_raise, for_each, faulty, later, ◌>>◌, pure,
}

-- Every element satisfies `P`.
abbrev pub All : {A : Type 0} → (A → Type 0) → List A → Type 0
All P [] = Unit
All P (x ∷ xs) = P x × All P xs

module _ {S E : Type 0} where
  -- What holds of the value and the tables of a result that is no error.
  abbrev pub OnSuccess : {A : Type 0} → (A → S → Type 0) → Result E A × Db S → Type 0
  OnSuccess Q (ok a, db) = Q a db.tables
  OnSuccess Q (err e, db) = Unit

  pub record Ensures {A : Type 0} (Q : A → S → Type 0) (r : Result E A × Db S) : Type 0 where
    pub success : OnSuccess Q r

  -- The same, and an error leaves the tables as they were.
  abbrev pub Atomic : {A : Type 0} → S → (A → S → Type 0) → Result E A × Db S → Type 0
  Atomic before Q (ok a, db) = Q a db.tables
  Atomic before Q (err e, db) = db.tables ≡ before

  pub Ensures-bind :
      {A B : Type 0} {Q : A → S → Type 0} {R : B → S → Type 0} {f : A → Action S E B}
      {r : Result E A × Db S}
      → Ensures Q r
      → ((a : A) (db : Db S) → Q a db.tables → Ensures R (f a db))
      → Ensures R (continue f r)
  unfolding continue
  Ensures-bind {r = (ok a, db)} h k = k a db h.success
  Ensures-bind {r = (err e, db)} h k = record { success = tt }

  answer_success :
      {A : Type 0} (Q : A → S → Type 0) (e : E) (t : S) (rest : List Bool) (r : Option (A × S))
      → ((a : A) (t' : S) → r ≡ some (a, t') → Q a t')
      → OnSuccess Q (answer e t rest r)
  answer_success Q e t rest none h = tt
  answer_success Q e t rest (some (a, t')) h = h a t' refl

  pub Ensures-statement :
      {A : Type 0} {Q : A → S → Type 0} (e : E) (f : S → Option (A × S)) (db : Db S)
      → ((a : A) (t : S) → f db.tables ≡ some (a, t) → Q a t)
      → Ensures Q (statement e f db)
  unfolding statement
  Ensures-statement {Q = Q} e f db h = elim (Bool-cases (faulty db.faults)) [
    | inl down ↦ rw down (record { success = tt })
    | inr up ↦
        rw up (record { success = answer_success Q e db.tables (later db.faults) (f db.tables) h })
  ]

  pub Ensures-query :
      {A : Type 0} {Q : A → S → Type 0} (e : E) (f : S → A) (db : Db S)
      → Q (f db.tables) db.tables
      → Ensures Q (query e f db)
  unfolding query
  Ensures-query e f db h = elim (Bool-cases (faulty db.faults)) [
    | inl down ↦ rw down (record { success = tt })
    | inr up ↦ rw up (record { success = h })
  ]

  pub Ensures-guard :
      {Q : Unit {0} → S → Type 0} (b : Bool) (e : E) (db : Db S)
      → (b ≡ true → Q tt db.tables)
      → Ensures Q (guard b e db)
  unfolding guard
  Ensures-guard true e db h = record { success = h refl }
  Ensures-guard false e db h = record { success = tt }

  pub Ensures-or_raise :
      {A : Type 0} {Q : A → S → Type 0} (o : Option A) (e : E) (db : Db S)
      → ((a : A) → o ≡ some a → Q a db.tables)
      → Ensures Q (or_raise o e db)
  unfolding or_raise
  Ensures-or_raise none e db h = record { success = tt }
  Ensures-or_raise (some a) e db h = record { success = h a refl }

  pub Ensures-mono :
      {A : Type 0} {Q R : A → S → Type 0} {r : Result E A × Db S}
      → Ensures Q r
      → ((a : A) (t : S) → Q a t → R a t)
      → Ensures R r
  Ensures-mono {r = (ok a, db)} h k = record { success = k a db.tables h.success }
  Ensures-mono {r = (err e, db)} h k = record { success = tt }

  rollback-Atomic :
      {A : Type 0} (Q : A → S → Type 0) (before : S) (r : Result E A × Db S)
      → Ensures Q r
      → Atomic before Q (rollback before r)
  rollback-Atomic Q before (ok a, db) h = h.success
  rollback-Atomic Q before (err e, db) h = refl

  pub Atomic-transaction :
      {A : Type 0} {Q : A → S → Type 0} (e : E) (body : Action S E A) (db : Db S)
      → Ensures Q (body db)
      → Atomic db.tables Q (transaction e body db)
  unfolding transaction
  Atomic-transaction {Q = Q} e body db h = rollback-Atomic Q db.tables _ (
      Ensures-bind h λ a db' q.
        Ensures-statement e (λ t. some (a, t)) db'
          λ b t eq. subst (λ x. Q x.0 x.1) (some-injective (a, db'.tables) (b, t) eq) q)

  pub Atomic-Ensures :
      {A : Type 0} {Q : A → S → Type 0} (before : S) (r : Result E A × Db S)
      → Atomic before Q r
      → Ensures Q r
  Atomic-Ensures before (ok a, db) h = record { success = h }
  Atomic-Ensures before (err e, db) h = record { success = tt }

  pub Ensures-pure :
      {A : Type 0} {Q : A → S → Type 0} (a : A) (db : Db S) → Q a db.tables → Ensures Q (ok a, db)
  Ensures-pure a db h = record { success = h }

  -- A loop whose invariant speaks of the elements that are left.
  pub Ensures-for_each :
      {A : Type 0} (P : A → Type 0) (I : List A → S → Type 0) (body : A → Action S E (Unit {0}))
      → ((x : A) (xs : List A) (db : Db S)
          → P x
          → I (x ∷ xs) db.tables
          → Ensures (λ _ t. I xs t) (body x db))
      → (xs : List A) (db : Db S) → All P xs
      → I xs db.tables
      → Ensures (λ _ t. I [] t) (for_each body xs db)
  unfolding for_each
  Ensures-for_each P I body keep [] db h i = record { success = i }
  Ensures-for_each P I body keep (x ∷ xs) db h i =
      Ensures-bind (keep x xs db h.0 i) λ _ db' i'. Ensures-for_each P I body keep xs db' h.1 i'

  -- A test before a transaction.
  pub Atomic-guard :
      {A : Type 0} (Q : A → S → Type 0) (b : Bool) (e : E) (m : Action S E A) (db : Db S)
      → (b ≡ true → Atomic db.tables Q (m db))
      → Atomic db.tables Q ((guard b e >> m) db)
  unfolding guard continue
  Atomic-guard Q true e m db h = h refl
  Atomic-guard Q false e m db h = refl

  -- A value computed after a transaction.
  pub Atomic-then :
      {A B : Type 0} (Q : A → S → Type 0) (R : B → S → Type 0) (b : B) (before : S)
      (r : Result E A × Db S)
      → Atomic before Q r
      → ((a : A) (t : S) → Q a t → R b t)
      → Atomic before R (continue (λ _. pure b) r)
  unfolding continue
  Atomic-then Q R b before (ok a, db) h k = k a db.tables h
  Atomic-then Q R b before (err e, db) h k = h
