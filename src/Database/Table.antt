-- ===== src/Database/Table.antt =====
-- Rows in the order of their primary key: the first that meets a condition, and a change of it.
use go_order_management_syst.Prelude.{
  ℕ, ◌+◌, ◌≡◌, Bool, true, false, List, [], ◌∷◌, Option, none, some, arith, sum_by, if◌then◌else◌,
}

module _ {A : Type 0} where
  abbrev pub find : (A → Bool) → List A → Option A
  find p [] = none
  find p (x ∷ xs) = if p x then some x else find p xs

  -- An update of the row with this key, of which there is at most one.
  abbrev pub modify : (A → Bool) → (A → A) → List A → List A
  modify p f [] = []
  modify p f (x ∷ xs) = if p x then f x ∷ xs else x ∷ modify p f xs

  abbrev pub exists : (A → Bool) → List A → Bool
  exists p [] = false
  exists p (x ∷ xs) = if p x then true else exists p xs

  -- A row changes a sum by what it changes itself.
  pub sum_by-modify :
      (g : A → ℕ) (p : A → Bool) (f : A → A) (xs : List A) (x : A)
      → find p xs ≡ some x
      → sum_by g (modify p f xs) + g x ≡ sum_by g xs + g (f x)
  sum_by-modify g p f [] x h = cc
  sum_by-modify g p f (y ∷ ys) x h = ground (arith, sum_by-modify g p f ys x)

  pub find_holds : (p : A → Bool) (xs : List A) (x : A) → find p xs ≡ some x → p x ≡ true
  find_holds p [] x h = cc
  find_holds p (y ∷ ys) x h = ground (arith, find_holds p ys x)

  -- A change that keeps the condition is found again.
  pub find-modify :
      (p : A → Bool) (f : A → A) (xs : List A) (x : A)
      → find p xs ≡ some x
      → p (f x) ≡ true
      → find p (modify p f xs) ≡ some (f x)
  find-modify p f [] x h k = cc
  find-modify p f (y ∷ ys) x h k = ground (arith, find-modify p f ys x)

  -- `WHERE p`
  abbrev pub select : (A → Bool) → List A → List A
  select p [] = []
  select p (x ∷ xs) = if p x then x ∷ select p xs else select p xs
