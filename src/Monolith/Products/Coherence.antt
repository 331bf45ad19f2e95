-- ===== src/Monolith/Products/Coherence.antt =====
-- The product cache of internal/bizcache/product_cache.go and the database agree, as
-- internal/service/product_service.go uses them, while Redis answers and the calls run one after the
-- other.
use go_order_management_syst.Prelude.{
  ◌≡◌, refl, sym, subst, ◌∙◌, inl, inr, Bool, Bool-cases, true, false, List, [], ◌∷◌, Option, none,
  some, arith,
}
use go_order_management_syst.Prelude.Int64.{Int64}
use go_order_management_syst.Database.{Db, Result, ok, err}
use go_order_management_syst.Database.Outcome.{
  Outcome, Satisfies, Outcome-bind, Outcome-statement, Outcome-query, Outcome-or_raise,
  Outcome-pure,
}
use go_order_management_syst.Database.Table.{find, modify, find_holds}
use go_order_management_syst.Monolith.Store.{
  Product, ProductStatus, on_sale, off_sale, Tables, Error, product_on_sale_failed,
  product_off_sale_failed, has_product_id, same_product_status,
}
use go_order_management_syst.Monolith.Products.{
  Cache, Shop, with_status, update_product_status, get_product_detail, delete_product_detail,
  read_product, read_missed, or_read, begin_get_product, end_get_product, get_product, change_found,
  change_status, drop_cached, on_sale_product, off_sale_product,
}
use go_order_management_syst.Monolith.Products.Cached.{
  IsCoherent, set-IsCoherent, delete-IsCoherent, detail-IsCoherent, detail_found,
}

read_product_lem :
    (id : Int64) (db : Db Tables)
    → Outcome
        (λ p t. (t ≡ db.tables) × (find (has_product_id id) t.products ≡ some p))
        (λ t. t ≡ db.tables)
        (read_product id db)
unfolding read_product
read_product_lem id db =
    Outcome-bind {Q = λ o t. (t ≡ db.tables) × (o ≡ find (has_product_id id) t.products)}
      (Outcome-query _ _ db refl (refl, refl))
      λ found db1 h. Outcome-or_raise found _ db1 h.0 λ p e. (h.0, sym h.1 ∙ e)

-- What is true after an answer of `GetProductByID`.
abbrev pub Answered : Int64 → Result Error Product × Shop → Type 0
Answered id (ok p, s) =
    IsCoherent s.db.tables.products s.cache
    × (find (has_product_id id) s.db.tables.products ≡ some p)
Answered id (err e, s) = IsCoherent s.db.tables.products s.cache

same_id :
    (id : Int64) (ps : List Product) (p : Product)
    → find (has_product_id id) ps ≡ some p
    → p.id ≡ id
same_id id ps p e = ground (arith, find_holds (has_product_id id) ps p e)

read_missed-Answered :
    (id : Int64) (t : Tables) (c : Cache) (r : Result Error Product × Db Tables)
    → IsCoherent t.products c
    → Satisfies
        (λ p t'. (t' ≡ t) × (find (has_product_id id) t'.products ≡ some p))
        (λ t'. t' ≡ t)
        r
    → Answered id (end_get_product (read_missed c r))
read_missed-Answered id t c (ok p, db) h (same, found) =
    let now = subst (λ (u : Tables). IsCoherent u.products c) (sym same) h in
    (
      set-IsCoherent db.tables.products c p
          (subst (λ i. find (has_product_id i) db.tables.products ≡ some p)
            (sym (same_id id db.tables.products p found)) found)
          now,
      found,
    )
read_missed-Answered id t c (err e, db) h same =
    subst (λ (u : Tables). IsCoherent u.products c) (sym same) h

-- `GetProductByID`, of what the cache answered.
or_read-Answered :
    (id : Int64) (db : Db Tables) (o : Option Product) (c : Cache)
    → IsCoherent db.tables.products c
    → ((p : Product) → o ≡ some p → find (has_product_id id) db.tables.products ≡ some p)
    → Answered id (end_get_product (or_read id db (o, c)))
or_read-Answered id db (some p) c h found = (h, found p refl)
or_read-Answered id db none c h found =
    read_missed-Answered id db.tables c (read_product id db) h (read_product_lem id db).satisfies

get_product-Answered :
    (id : Int64) (s : Shop)
    → IsCoherent s.db.tables.products s.cache
    → Answered id (get_product id s)
unfolding get_product begin_get_product
get_product-Answered id s h =
    or_read-Answered id s.db (get_product_detail id s.cache).0 (get_product_detail id s.cache).1
      (detail-IsCoherent s.db.tables.products s.cache id h)
      (λ p e. detail_found s.db.tables.products s.cache id p h e)

update_rows_lem :
    (id : Int64) (status : ProductStatus) (t t' : Tables) (u : Unit {0})
    → update_product_status id status t ≡ some (u, t')
    → t'.products ≡ modify (has_product_id id) (with_status status) t.products
unfolding update_product_status
update_rows_lem id status t t' u e = ground arith

-- What a change of the status did to the table.
abbrev Changed : Int64 → ProductStatus → Tables → Bool → Tables → Type 0
Changed id status t true t' =
    t'.products ≡ modify (has_product_id id) (with_status status) t.products
Changed id status t false t' = t' ≡ t

change_found_lem :
    (status : ProductStatus) (failed : Error) (p : Product) (db : Db Tables)
    → Outcome (Changed p.id status db.tables) (λ t. t ≡ db.tables) (change_found status failed p db)
unfolding change_found
change_found_lem status failed p db = elim (Bool-cases (same_product_status p.status status)) [
  | inl already ↦ rw already (Outcome-pure false db refl)
  | inr other ↦ rw other (
      Outcome-bind
        {Q = λ _ t.
          t.products ≡ modify (has_product_id p.id) (with_status status) db.tables.products}
        (Outcome-statement _ _ db refl λ u t e. update_rows_lem p.id status db.tables t u e)
        λ _ db1 h. Outcome-pure true db1 h)
]

change_status_lem :
    (status : ProductStatus) (failed : Error) (id : Int64) (db : Db Tables)
    → Outcome (Changed id status db.tables) (λ t. t ≡ db.tables) (change_status status failed id db)
unfolding change_status
change_status_lem status failed id db = Outcome-bind (read_product_lem id db) λ p db1 h.
    subst
      (λ (t : Tables).
        Outcome (Changed id status t) (λ u. u ≡ t) (change_found status failed p db1))
      h.0
      (subst
        (λ i.
          Outcome (Changed i status db1.tables) (λ u. u ≡ db1.tables)
            (change_found status failed p db1))
        (same_id id db1.tables.products p h.1) (change_found_lem status failed p db1))

drop_cached-IsCoherent :
    (id : Int64) (status : ProductStatus) (t : Tables) (c : Cache)
    (r : Result Error Bool × Db Tables)
    → IsCoherent t.products c
    → Satisfies (Changed id status t) (λ u. u ≡ t) r
    → let s = (drop_cached id c r).1 in IsCoherent s.db.tables.products s.cache
drop_cached-IsCoherent id status t c (ok true, db) h changed =
    subst (λ ps. IsCoherent ps (delete_product_detail id c)) (sym changed)
      (delete-IsCoherent t.products c id status h)
drop_cached-IsCoherent id status t c (ok false, db) h same =
    subst (λ (u : Tables). IsCoherent u.products c) (sym same) h
drop_cached-IsCoherent id status t c (err e, db) h same =
    subst (λ (u : Tables). IsCoherent u.products c) (sym same) h

-- A call on a product.
pub data Call : Type 0 where
  get on off : Int64 → Call

unfoldable pub serve : Call → Shop → Shop
serve (get id) s = (get_product id s).1
serve (on id) s = (on_sale_product id s).1
serve (off id) s = (off_sale_product id s).1

unfoldable pub serve_all : List Call → Shop → Shop
serve_all [] s = s
serve_all (call ∷ calls) s = serve_all calls (serve call s)

answered :
    (id : Int64) (r : Result Error Product × Shop)
    → Answered id r
    → IsCoherent r.1.db.tables.products r.1.cache
answered id (ok p, s) h = h.0
answered id (err e, s) h = h

serve-IsCoherent :
    (call : Call) (s : Shop)
    → IsCoherent s.db.tables.products s.cache
    → IsCoherent (serve call s).db.tables.products (serve call s).cache
unfolding serve on_sale_product off_sale_product
serve-IsCoherent (get id) s h = answered id (get_product id s) (get_product-Answered id s h)
serve-IsCoherent (on id) s h =
    drop_cached-IsCoherent id on_sale s.db.tables s.cache _ h
      (change_status_lem on_sale product_on_sale_failed id s.db).satisfies
serve-IsCoherent (off id) s h =
    drop_cached-IsCoherent id off_sale s.db.tables s.cache _ h
      (change_status_lem off_sale product_off_sale_failed id s.db).satisfies

-- While Redis answers, or where there is none, and whatever statements fail: after any calls, one
-- after the other, of
-- `GetProductByID`, `OnSaleProduct` and `OffSaleProduct` from a state in which every cached product is
-- the one in the table, a product that `GetProductByID` answers is the one in the table.
get_product_agrees :
    (calls : List Call) (id : Int64) (s s' : Shop) (p : Product)
    → IsCoherent s.db.tables.products s.cache
    → get_product id (serve_all calls s) ≡ (ok p, s')
    → find (has_product_id id) s'.db.tables.products ≡ some p
unfolding serve_all
get_product_agrees [] id s s' p h e = (subst (Answered id) e (get_product-Answered id s h)).1
get_product_agrees (call ∷ calls) id s s' p h e =
    get_product_agrees calls id (serve call s) s' p (serve-IsCoherent call s h) e
