-- ===== src/Database.antt =====
-- What the services use of their SQL databases. A database is a value of its tables together with
-- the answers that it will give to the next statements: an answer `true` is a statement that fails
-- (a lost connection, a timeout, a value too long for its column), and after the listed answers
-- every statement succeeds. The content of a statement is a function of the tables, which is `none`
-- where a constraint of the schema refuses it.
pub mod Table
pub mod Ensures
pub mod Outcome
pub mod Page
pub mod Sorted
use go_order_management_syst.Prelude.{
  Bool, true, false, List, [], ◌∷◌, Option, none, some, if◌then◌else◌,
}

pub data Result (E : Type 0) (A : Type 0) : Type 0 where
  ok : A → Result E A
  err : E → Result E A

pub record Db (S : Type 0) : Type 0 where
  pub tables : S
  pub faults : List Bool

abbrev pub Action : Type 0 → Type 0 → Type 0 → Type 0
Action S E A = Db S → Result E A × Db S

abbrev pub faulty : List Bool → Bool
faulty [] = false
faulty (x ∷ xs) = x

abbrev pub later : List Bool → List Bool
later [] = []
later (x ∷ xs) = xs

module _ {S E : Type 0} where
  infixl 5 ◌>>=◌ ◌>>◌
  abbrev pub pure : {A : Type 0} → A → Action S E A
  pure a db = (ok a, db)

  abbrev pub raise : {A : Type 0} → E → Action S E A
  raise e db = (err e, db)

  unfoldable pub continue :
      {A B : Type 0} → (A → Action S E B) → Result E A × Db S → Result E B × Db S
  continue f (ok a, db) = f a db
  continue f (err e, db) = (err e, db)

  abbrev pub ◌>>=◌ : {A B : Type 0} → Action S E A → (A → Action S E B) → Action S E B
  ◌>>=◌ m f db = continue f (m db)

  abbrev pub ◌>>◌ : {A B : Type 0} → Action S E A → Action S E B → Action S E B
  m >> k = m >>= λ _. k

  abbrev pub answer : {A : Type 0} → E → S → List Bool → Option (A × S) → Result E A × Db S
  answer e t rest none = (err e, record { tables = t; faults = rest })
  answer e t rest (some (a, t')) = (ok a, record { tables = t'; faults = rest })

  -- One statement; `e` is the error that stands for the driver's.
  unfoldable pub statement : {A : Type 0} → E → (S → Option (A × S)) → Action S E A
  statement e f db =
      if faulty db.faults
      then (err e, record db { faults = later db.faults })
      else answer e db.tables (later db.faults) (f db.tables)

  -- A statement that only reads.
  unfoldable pub query : {A : Type 0} → E → (S → A) → Action S E A
  unfolding statement
  query e f = statement e (λ t. some (f t, t))

  abbrev pub rollback : {A : Type 0} → S → Result E A × Db S → Result E A × Db S
  rollback before (ok a, db) = (ok a, db)
  rollback before (err e, db) = (err e, record db { tables = before })

  -- `db.Transaction(body)`: the commit is one more statement, and an error puts the tables back.
  unfoldable pub transaction : {A : Type 0} → E → Action S E A → Action S E A
  transaction e body db = rollback db.tables ((body >>= λ a. statement e (λ t. some (a, t))) db)

  -- `if condition { return e }` and `if !found { return e }`.
  unfoldable pub guard : Bool → E → Action S E (Unit {0})
  guard true e = pure tt
  guard false e = raise e

  unfoldable pub or_raise : {A : Type 0} → Option A → E → Action S E A
  or_raise none e = raise e
  or_raise (some a) e = pure a

  -- A loop that ends at the first error.
  unfoldable pub for_each :
      {A : Type 0} → (A → Action S E (Unit {0})) → List A → Action S E (Unit {0})
  for_each body [] = pure tt
  for_each body (x ∷ xs) = body x >> for_each body xs

  -- `_ = db....Error`: the result is dropped.
  abbrev pub attempt : {A : Type 0} → Action S E A → Action S E (Unit {0})
  attempt m db = (ok tt, (m db).1)

  -- `if err := ...; err != nil { handler }`.
  unfoldable pub handle : {A : Type 0} → (E → Action S E A) → Result E A × Db S → Result E A × Db S
  handle handler (ok a, db) = (ok a, db)
  handle handler (err e, db) = handler e db

  abbrev pub recover : {A : Type 0} → Action S E A → (E → Action S E A) → Action S E A
  recover m handler db = handle handler (m db)
