-- ===== src/Monolith/Products/Tests.antt =====
-- A product that is taken off sale while it is cached.
use go_order_management_syst.Prelude.{◌≡◌, refl, true, List, [], ◌∷◌}
use go_order_management_syst.Database.{ok, statement, query, or_raise, guard, continue}
use go_order_management_syst.Monolith.Store.{Product, Tables, on_sale, off_sale}
use go_order_management_syst.Monolith.Products.{
  Shop, get_product, begin_get_product, get_product_detail, set_product_detail,
  delete_product_detail, read_product, on_sale_product, off_sale_product, change_status,
  change_found, update_product_status,
}
use go_order_management_syst.Monolith.Products.Cached.{IsCoherent}
use go_order_management_syst.Monolith.Products.Race.{GoesStale, answering, stale_read_stays}
use go_order_management_syst.Monolith.Products.Coherence.{Call, serve_all, serve}

abbrev tea : Product
tea = record { id = 1; name = "tea"; description = ""; price_fen = 500; status = on_sale }

abbrev tables : Tables
tables = record {
  products = tea ∷ [];
  inventories = [];
  orders = [];
  logs = [];
  keys = [];
  outbox = [];
  next_order = 1;
}

abbrev cached_shop : Shop
cached_shop = record {
  db = record { tables = tables; faults = [] };
  cache = record { connected = true; entries = tea ∷ []; faults = [] };
}

cached_shop-IsCoherent : IsCoherent cached_shop.db.tables.products cached_shop.cache
cached_shop-IsCoherent = record { cached = λ id p e. e; answers = refl }

abbrev tea_off : Product
tea_off = record tea { status = off_sale }

abbrev shop_after : Shop
shop_after = record {
  db = record { tables = record tables { products = tea_off ∷ [] }; faults = [] };
  cache = record { connected = true; entries = tea_off ∷ []; faults = [] };
}

abbrev calls : List Call
calls = Call.get 1 ∷ Call.off 1 ∷ []

answers_off_sale : get_product 1 (serve_all calls cached_shop) ≡ (ok tea_off, shop_after)
unfolding get_product begin_get_product get_product_detail set_product_detail delete_product_detail
    read_product on_sale_product off_sale_product change_status change_found update_product_status
    serve_all serve statement query or_raise guard continue
answers_off_sale = refl

-- The product is read for the cache, taken off sale, and cached as it was read.
stale_read_stays_example : GoesStale 1 tea (begin_get_product 1 (answering tables []))
stale_read_stays_example = stale_read_stays 1 tables [] tea refl refl refl

-- If Redis does not answer the deletion, the old product is answered.
answers_stale :
    (get_product 1
      (off_sale_product 1
        (record cached_shop { cache = record cached_shop.cache { faults = true ∷ [] } })).1).0
    ≡ ok tea
unfolding get_product begin_get_product get_product_detail set_product_detail delete_product_detail
    read_product on_sale_product off_sale_product change_status change_found update_product_status
    statement query or_raise guard continue
answers_stale = refl
