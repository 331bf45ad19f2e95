-- ===== src/Database/Page.antt =====
-- The paging that the listings of the services share: the page number and the page size of a
-- request with their defaults, and `Offset((page - 1) * pageSize).Limit(pageSize)` on the rows in
-- their order. What the database answers to a negative offset is a parameter.
use go_order_management_syst.Prelude.{
  ℕ, zero, suc, ◌+◌, ◌-◌, ◌*◌, ◌≤◌, ◌<◌, ◌≡◌, refl, sym, ap, ◌∙◌, ◌&&◌, List, [], ◌∷◌, ◌++◌, leb,
  ltb, length, take, drop, arith, if◌then◌else◌,
}
use go_order_management_syst.Prelude.Int64.{Int64, is_positive, wrapping_mul}

-- `if page <= 0 { page = 1 }` and `if pageSize <= 0 || pageSize > 100 { pageSize = 20 }`
abbrev pub page_or_first : Int64 → Int64
page_or_first page = if is_positive page then page else 1

abbrev pub size_or_default : Int64 → Int64
size_or_default size = if is_positive size && leb size 100 then size else 20

module _ {A : Type 0} where
  unfoldable pub page_of : (Int64 → List A → List A) → Int64 → Int64 → List A → List A
  page_of skip page size rows =
      take (size_or_default size)
        (skip (wrapping_mul (page_or_first page - 1) (size_or_default size)) rows)

  -- The pages from the first to the `n`-th, one after the other.
  unfoldable pub pages : (ℕ → List A) → ℕ → List A
  pages page zero = []
  pages page (suc n) = pages page n ++ page (suc n)

  -- `ORDER BY id DESC`
  unfoldable pub insert_desc : (A → ℕ) → A → List A → List A
  insert_desc id x [] = x ∷ []
  insert_desc id x (y ∷ ys) = if ltb (id x) (id y) then y ∷ insert_desc id x ys else x ∷ y ∷ ys

  unfoldable pub order_desc : (A → ℕ) → List A → List A
  unfolding insert_desc
  order_desc id [] = []
  order_desc id (x ∷ xs) = insert_desc id x (order_desc id xs)

  insert_desc-length :
      (id : A → ℕ) (x : A) (ys : List A) → length (insert_desc id x ys) ≡ suc (length ys)
  unfolding insert_desc
  insert_desc-length id x [] = refl
  insert_desc-length id x (y ∷ ys) = ground (arith, insert_desc-length id x ys)

  pub order_desc-length : (id : A → ℕ) (xs : List A) → length (order_desc id xs) ≡ length xs
  unfolding order_desc
  order_desc-length id [] = refl
  order_desc-length id (x ∷ xs) =
      insert_desc-length id x (order_desc id xs) ∙ ap suc (order_desc-length id xs)

  take-nil : (n : ℕ) → take {A = A} n [] ≡ []
  take-nil zero = refl
  take-nil (suc n) = refl

  take-add : (a b : ℕ) (xs : List A) → take (a + b) xs ≡ take a xs ++ take b (drop a xs)
  take-add zero b xs = rw (zero_plus b) refl
    where
      zero_plus : (b : ℕ) → 0 + b ≡ b
      zero_plus b = omega arith
  take-add (suc a) b [] = take-nil (suc a + b) ∙ sym (take-nil b)
  take-add (suc a) b (x ∷ xs) =
      let sum : suc a + b ≡ suc (a + b) = omega arith in rw sum (ap (◌∷◌ x) (take-add a b xs))

  pub take_all : (n : ℕ) (xs : List A) → length xs ≤ n → take n xs ≡ xs
  take_all zero [] h = refl
  take_all zero (x ∷ xs) h = absurd (omega arith)
  take_all (suc n) [] h = refl
  take_all (suc n) (x ∷ xs) h = ground (arith, take_all n xs)

  -- The first `n` pages of a valid size, one after the other, are the first rows.
  pages-take :
      (skip : Int64 → List A → List A) (size n : ℕ) (rows : List A)
      → ((offset : ℕ) → offset < 9223372036854775808 → skip offset rows ≡ drop offset rows)
      → 0 < size
      → size ≤ 100
      → n * size < 9223372036854775808
      → n < 9223372036854775808
      → pages (λ page. page_of skip page size rows) n ≡ take (n * size) rows
  unfolding pages page_of
  pages-take skip size zero rows skips pos small bound many =
      let none_yet : 0 * size ≡ 0 = omega arith in rw none_yet refl
  pages-take skip size (suc n) rows skips pos small bound many =
      let product : suc n * size ≡ n * size + size = grind arith in
      let valid : size_or_default size ≡ size = ground arith in
      let number : page_or_first (suc n) - 1 ≡ n = ground arith in
      let offset : wrapping_mul (page_or_first (suc n) - 1) (size_or_default size) ≡ n * size =
        rw (number, valid) (omega (arith, product)) in
      let before =
        pages-take skip size n rows skips pos small (omega (arith, product)) (omega arith) in
      rw (offset, valid, skips (n * size) (omega (arith, product)), before, product)
        (sym (take-add (n * size) size rows))

  -- Enough pages are all the rows, in their order.
  pub pages_all :
      (skip : Int64 → List A → List A) (size n : ℕ) (rows : List A)
      → ((offset : ℕ) → offset < 9223372036854775808 → skip offset rows ≡ drop offset rows)
      → 0 < size
      → size ≤ 100
      → n * size < 9223372036854775808
      → n < 9223372036854775808
      → length rows ≤ n * size
      → pages (λ page. page_of skip page size rows) n ≡ rows
  pages_all skip size n rows skips pos small bound many enough =
      pages-take skip size n rows skips pos small bound many ∙ take_all (n * size) rows enough
