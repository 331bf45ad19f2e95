-- ===== src/Database/Sorted.antt =====
-- What `ORDER BY id DESC` promises of the rows.
use go_order_management_syst.Prelude.{
  ℕ, ◌≤◌, ◌≡◌, refl, ◌∙◌, inl, inr, Bool, Bool-cases, ◌&&◌, List, [], ◌∷◌, ltb, length, arith,
}
use go_order_management_syst.Database.Ensures.{All}
use go_order_management_syst.Database.Page.{insert_desc, order_desc}
use go_order_management_syst.Database.Table.{select}

module _ {A : Type 0} where
  -- From the greatest id to the least.
  abbrev pub Descends : (A → ℕ) → List A → Type 0
  Descends id [] = Unit
  Descends id (x ∷ xs) = All (λ y. id y ≤ id x) xs × Descends id xs

  insert_desc-All :
      (P : A → Type 0) (id : A → ℕ) (x : A) (ys : List A)
      → P x
      → All P ys
      → All P (insert_desc id x ys)
  unfolding insert_desc
  insert_desc-All P id x [] h k = (h, tt)
  insert_desc-All P id x (y ∷ ys) h k = elim (Bool-cases (ltb (id x) (id y))) [
    | inl less ↦ rw less (k.0, insert_desc-All P id x ys h k.1)
    | inr more ↦ rw more (h, k)
  ]

  All-le :
      (id : A → ℕ) (a b : ℕ) (ys : List A) → a ≤ b → All (λ y. id y ≤ a) ys → All (λ y. id y ≤ b) ys
  All-le id a b [] h k = tt
  All-le id a b (y ∷ ys) h k = (omega (arith, k.0), All-le id a b ys h k.1)

  insert_desc-Descends :
      (id : A → ℕ) (x : A) (ys : List A) → Descends id ys → Descends id (insert_desc id x ys)
  unfolding insert_desc
  insert_desc-Descends id x [] h = (tt, tt)
  insert_desc-Descends id x (y ∷ ys) h = elim (Bool-cases (ltb (id x) (id y))) [
    | inl less ↦ rw less (
      insert_desc-All (λ z. id z ≤ id y) id x ys (ground (arith, less)) h.0,
      insert_desc-Descends id x ys h.1,
    )
    | inr more ↦ rw more (
        let least : id y ≤ id x = ground (arith, more) in
        ((least, All-le id (id y) (id x) ys least h.0), h))
  ]

  pub order_desc-Descends : (id : A → ℕ) (xs : List A) → Descends id (order_desc id xs)
  unfolding order_desc
  order_desc-Descends id [] = tt
  order_desc-Descends id (x ∷ xs) =
      insert_desc-Descends id x (order_desc id xs) (order_desc-Descends id xs)

  -- How many rows meet a condition.
  abbrev pub count : (A → Bool) → List A → ℕ
  count p xs = length (select p xs)

  insert_desc-count :
      (p : A → Bool) (id : A → ℕ) (x : A) (ys : List A)
      → count p (insert_desc id x ys) ≡ count p (x ∷ ys)
  unfolding insert_desc
  insert_desc-count p id x [] = refl
  insert_desc-count p id x (y ∷ ys) = ground (arith, insert_desc-count p id x ys)

  pub order_desc-count :
      (p : A → Bool) (id : A → ℕ) (xs : List A) → count p (order_desc id xs) ≡ count p xs
  unfolding order_desc
  order_desc-count p id [] = refl
  order_desc-count p id (x ∷ xs) =
      insert_desc-count p id x (order_desc id xs) ∙ ground (arith, order_desc-count p id xs)

  pub select-count :
      (p q : A → Bool) (xs : List A) → count p (select q xs) ≡ count (λ x. q x && p x) xs
  select-count p q [] = refl
  select-count p q (x ∷ xs) = ground (arith, select-count p q xs)

  pub select-length : (p : A → Bool) (xs : List A) → length (select p xs) ≤ length xs
  select-length p [] = omega arith
  select-length p (x ∷ xs) = ground (arith, select-length p xs)
