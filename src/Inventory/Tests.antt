-- ===== src/Inventory/Tests.antt =====
-- Runs of the inventory service on a small store.
use go_order_management_syst.Prelude.{◌≡◌, ◌<◌, ◌≤◌, ◌%◌, refl, true, false, [], ◌∷◌, arith}
use go_order_management_syst.Prelude.Text.{trim_space}
use go_order_management_syst.Database.{
  Db, continue, statement, query, transaction, guard, or_raise, for_each,
}
use go_order_management_syst.Inventory.Accounts.{Balanced}
use go_order_management_syst.Inventory.Accounts.Reserve.{reserve_request-Balanced}
use go_order_management_syst.Inventory.Accounts.Settle.{IsSettled, transition-Balanced}
use go_order_management_syst.Inventory.Accounts.Stock.{
  init_inventory-Balanced, add_inventory-Balanced,
}
use go_order_management_syst.Inventory.Repeat.{
  healthy as answering, transition_repeat, reserve_repeat,
}
use go_order_management_syst.Inventory.Normalize.Merge.{
  Ascending, asked, normalize_items_merges, normalize_items_overflows,
}
use go_order_management_syst.Database.{ok, err}
use go_order_management_syst.Database.Ensures.{Atomic}
use go_order_management_syst.Prelude.Int64.{wrapping_add, is_negative}
use go_order_management_syst.Inventory.Store.{
  confirm, update_settle, update_status, Tables, Reservation, reservation_pending,
  reservation_confirmed, reservation_released, reservation_transition, reserve, initialize,
  update_reserve, create_reservation, create_item,
}
use go_order_management_syst.Inventory.Normalize.{
  normalize_items, collect, insert_item, sort_items, add_quantity,
}
use go_order_management_syst.Inventory.Service.{
  transition_body, settle, settle_item, sort_by_product, ReserveRequest, transition, init_inventory,
  add_inventory, reserve_request, reserve_body, reserve_new, reserve_item,
}

abbrev stock : Tables
stock = record {
  inventories =
      record { product_id = 1; available_quantity = 10; reserved_quantity = 0; version = 0 }
      ∷ record { product_id = 2; available_quantity = 3; reserved_quantity = 0; version = 0 }
      ∷ [];
  reservations = [];
  logs = [];
}

abbrev healthy : Db Tables
healthy = record { tables = stock; faults = [] }

abbrev two_products : ReserveRequest
two_products = record {
  order_id = 7;
  reservation_id = " r7 ";
  items =
      record { product_id = 2; quantity = 1 }
      ∷ record { product_id = 1; quantity = 4 }
      ∷ record { product_id = 2; quantity = 2 }
      ∷ [];
}

reserves_both :
    (reserve_request "fresh" two_products healthy).1.tables.inventories
    ≡ record { product_id = 1; available_quantity = 6; reserved_quantity = 4; version = 1 }
      ∷ record { product_id = 2; available_quantity = 0; reserved_quantity = 3; version = 1 }
      ∷ []
unfolding reserve_request reserve_body reserve_new reserve_item normalize_items sort_items
    add_quantity trim_space statement query transaction for_each update_reserve create_reservation
    create_item continue guard or_raise
reserves_both = refl

-- Ten units of product 1 came in, and order 7 holds four of them; the log's fourth unit is `-4`.
abbrev shop : Tables
shop = record {
  inventories =
      record { product_id = 1; available_quantity = 6; reserved_quantity = 4; version = 1 } ∷ [];
  reservations =
      record {
        id = "r7";
        order_id = 7;
        status = reservation_pending;
        items = record { reservation_id = "r7"; product_id = 1; quantity = 4 } ∷ [];
      }
      ∷ [];
  logs =
      record {
        product_id = 1;
        change_type = reserve;
        quantity = 18446744073709551612;
        reference_id = "r7";
      }
      ∷ record { product_id = 1; change_type = initialize; quantity = 10; reference_id = "" }
      ∷ [];
}

shop-Balanced : Balanced shop
shop-Balanced = record {
  reserved_held = λ p. ground arith;
  available_logged = λ p. ground arith;
  house_logged = λ p. ground arith;
  items_positive = ((refl, tt), tt);
}

abbrev open_shop : Db Tables
open_shop = record { tables = shop; faults = false ∷ [] }

abbrev one_more : ReserveRequest
one_more = record {
  order_id = 8;
  reservation_id = "r8";
  items = record { product_id = 1; quantity = 5 } ∷ [];
}

reserve_request-Balanced_example :
    Atomic shop (λ _ t. Balanced t) (reserve_request "fresh" one_more open_shop)
reserve_request-Balanced_example = reserve_request-Balanced "fresh" one_more open_shop shop-Balanced

transition-Balanced_example :
    Atomic shop
      (λ r t. Balanced t × IsSettled (trim_space " r7") reservation_released r t)
      (transition " r7" reservation_released open_shop)
transition-Balanced_example =
    transition-Balanced " r7" reservation_released open_shop (ground arith) shop-Balanced

init_inventory-Balanced_example : Atomic shop (λ _ t. Balanced t) (init_inventory 2 30 open_shop)
init_inventory-Balanced_example = init_inventory-Balanced 2 30 open_shop shop-Balanced

add_inventory-Balanced_example : Atomic shop (λ _ t. Balanced t) (add_inventory 1 30 open_shop)
add_inventory-Balanced_example = add_inventory-Balanced 1 30 open_shop shop-Balanced

abbrev r7 : Reservation
r7 = record {
  id = "r7";
  order_id = 7;
  status = reservation_confirmed;
  items = record { reservation_id = "r7"; product_id = 1; quantity = 4 } ∷ [];
}

-- The shop after the reservation of order 7 was confirmed.
abbrev settled_shop : Tables
settled_shop = record {
  inventories =
      record { product_id = 1; available_quantity = 6; reserved_quantity = 0; version = 2 } ∷ [];
  reservations = r7 ∷ [];
  logs =
      record {
        product_id = 1;
        change_type = confirm;
        quantity = 18446744073709551612;
        reference_id = "r7";
      }
      ∷ shop.logs;
}

confirms_first :
    transition "r7" reservation_confirmed (answering shop) ≡ (ok r7, answering settled_shop)
unfolding transition transition_body settle settle_item sort_by_product for_each update_settle
    update_status statement query transaction continue guard or_raise trim_space
confirms_first = refl

transition_repeat_example :
    (transition "r7" reservation_confirmed (answering settled_shop)
      ≡ (ok r7, answering settled_shop))
    × (transition "r7" reservation_released (answering settled_shop)
        ≡ (err reservation_transition, answering settled_shop))
transition_repeat_example =
    transition_repeat "r7" reservation_confirmed reservation_released (answering shop)
      (answering settled_shop) r7 shop-Balanced (ground arith) (ground arith) confirms_first

abbrev r8 : Reservation
r8 = record {
  id = "r8";
  order_id = 8;
  status = reservation_pending;
  items = record { reservation_id = "r8"; product_id = 1; quantity = 5 } ∷ [];
}

abbrev reserved_shop : Tables
reserved_shop = record {
  inventories =
      record { product_id = 1; available_quantity = 1; reserved_quantity = 9; version = 2 } ∷ [];
  reservations = r8 ∷ shop.reservations;
  logs =
      record {
        product_id = 1;
        change_type = reserve;
        quantity = 18446744073709551611;
        reference_id = "r8";
      }
      ∷ shop.logs;
}

reserves_first :
    reserve_request "fresh" one_more (answering shop) ≡ (ok r8, answering reserved_shop)
unfolding reserve_request reserve_body reserve_new reserve_item normalize_items sort_items
    add_quantity trim_space statement query transaction for_each update_reserve create_reservation
    create_item continue guard or_raise
reserves_first = refl

abbrev again : ReserveRequest
again = record {
  order_id = 8;
  reservation_id = "other";
  items = record { product_id = 1; quantity = 4 } ∷ [];
}

reserve_repeat_example :
    reserve_request "new" again (answering reserved_shop) ≡ (ok r8, answering reserved_shop)
unfolding normalize_items collect add_quantity sort_items insert_item
reserve_repeat_example =
    reserve_repeat "fresh" "new" one_more again again.items (answering shop)
      (answering reserved_shop) r8 reserves_first refl refl

normalize_items_merges_example :
    (0 < 3)
    × (3 ≤ 100)
    × Ascending 0
        (record { product_id = 1; quantity = 4 } ∷ record { product_id = 2; quantity = 3 } ∷ [])
    × (3 ≡ asked 2 two_products.items % 18446744073709551616)
unfolding normalize_items collect add_quantity sort_items insert_item
normalize_items_merges_example =
    normalize_items_merges 2 two_products.items
      (record { product_id = 1; quantity = 4 } ∷ record { product_id = 2; quantity = 3 } ∷ []) refl

normalize_items_overflows_example :
    (normalize_items (
        record { product_id = 1; quantity = 9223372036854775807 }
        ∷ record { product_id = 1; quantity = 1 }
        ∷ [])
      ≡ ok (record { product_id = 1; quantity = wrapping_add 9223372036854775807 1 } ∷ []))
    × (is_negative (wrapping_add 9223372036854775807 1) ≡ true)
normalize_items_overflows_example =
    normalize_items_overflows 1 9223372036854775807 1 refl refl refl (omega arith)
