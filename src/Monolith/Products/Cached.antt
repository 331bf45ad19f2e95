-- ===== src/Monolith/Products/Cached.antt =====
-- The operations of internal/bizcache/product_cache.go keep the cache in agreement with the table.
use go_order_management_syst.Prelude.{
  ◌≡◌, refl, false, List, [], ◌∷◌, none, some, arith, ◌==◌, if◌then◌else◌,
}
use go_order_management_syst.Prelude.Int64.{Int64}
use go_order_management_syst.Database.Table.{find, modify}
use go_order_management_syst.Monolith.Store.{Product, ProductStatus, has_product_id}
use go_order_management_syst.Monolith.Products.{
  Cache, drop_entry, with_status, get_product_detail, set_product_detail, delete_product_detail,
}

-- What the service can read from the cache.
abbrev pub visible : Cache → List Product
visible c = if c.connected then c.entries else []

-- Every cached product is the one in the table.
pub record IsCoherent (ps : List Product) (c : Cache) : Type 0 where
  pub cached :
      (id : Int64) (p : Product)
      → find (has_product_id id) (visible c) ≡ some p
      → find (has_product_id id) ps ≡ some p
  pub answers : c.faults ≡ []

find-drop :
    (x id : Int64) (ps : List Product)
    → find (has_product_id x) (drop_entry id ps)
      ≡ (if id == x then none else find (has_product_id x) ps)
find-drop x id [] = ground arith
find-drop x id (p ∷ ps) = ground (arith, find-drop x id ps)

find-with_status_other :
    (x id : Int64) (status : ProductStatus) (ps : List Product)
    → (id == x) ≡ false
    → find (has_product_id x) (modify (has_product_id id) (with_status status) ps)
      ≡ find (has_product_id x) ps
find-with_status_other x id status [] other = refl
find-with_status_other x id status (p ∷ ps) other =
    ground (arith, find-with_status_other x id status ps)

pub set-IsCoherent :
    (ps : List Product) (c : Cache) (p : Product)
    → find (has_product_id p.id) ps ≡ some p
    → IsCoherent ps c
    → IsCoherent ps (set_product_detail p c)
unfolding set_product_detail
set-IsCoherent ps c p found h = record {
  cached = λ x q e. ground (arith, h.answers, found, find-drop x p.id c.entries, h.cached x q);
  answers = ground (arith, h.answers);
}

pub delete-IsCoherent :
    (ps : List Product) (c : Cache) (id : Int64) (status : ProductStatus)
    → IsCoherent ps c
    → IsCoherent (modify (has_product_id id) (with_status status) ps) (delete_product_detail id c)
unfolding delete_product_detail
delete-IsCoherent ps c id status h = record {
  cached = λ x q e. ground (
    arith,
    h.answers,
    find-drop x id c.entries,
    find-with_status_other x id status ps,
    h.cached x q,
  );
  answers = ground (arith, h.answers);
}

pub detail-IsCoherent :
    (ps : List Product) (c : Cache) (id : Int64)
    → IsCoherent ps c
    → IsCoherent ps (get_product_detail id c).1
unfolding get_product_detail
detail-IsCoherent ps c id h = record {
  cached = λ x q e. ground (arith, h.answers, h.cached x q);
  answers = ground (arith, h.answers);
}

pub detail_found :
    (ps : List Product) (c : Cache) (id : Int64) (p : Product)
    → IsCoherent ps c
    → (get_product_detail id c).0 ≡ some p
    → find (has_product_id id) ps ≡ some p
unfolding get_product_detail
detail_found ps c id p h e = ground (arith, h.answers, h.cached id p)
