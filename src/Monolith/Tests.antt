-- ===== src/Monolith/Tests.antt =====
-- The service of internal/service on a shop with one product.
use mathlib.Core.List.Perm
use text.Mathlib.Text.{◌==◌ as str_eq}
use go_order_management_syst.Prelude.{
  ◌≡◌, refl, subst, false, List, [], ◌∷◌, none, arith, ◌==◌, if◌then◌else◌,
}
use go_order_management_syst.Database.{
  Db, ok, err, statement, query, guard, or_raise, transaction, continue,
}
use go_order_management_syst.Prelude.Text.{is_space, trim_left, trim_right, trim_space, byte_length}
use go_order_management_syst.Database.Ensures.{Atomic}
use go_order_management_syst.Database.Table.{find}
use go_order_management_syst.Monolith.Store.{
  Tables, Order, on_sale, pending, order_idempotency_conflict, biz_init, create_order_row,
  create_order_item, create_stock_log, deduct_inventory, try_create_key, complete_key,
  patch_order_total, create_outbox,
}
use go_order_management_syst.Monolith.Stock.{supply_log}
use go_order_management_syst.Monolith.Orders.Hash.{
  ItemRequest, request_hash, sort_items, has_duplicate,
}
use go_order_management_syst.Monolith.Orders.Hash.Permuted.{request_hash-perm}
use go_order_management_syst.Monolith.Orders.Create.{
  CreateRequest, Surroundings, create_order, create_body, create_new, order_lines, order_line,
  take_item, finish_key, log_stock,
}
use go_order_management_syst.Monolith.Orders.Lifecycle.{
  cancel_order, cancel_expired_order, is_event,
}
use go_order_management_syst.Monolith.Books.{Balanced}
use go_order_management_syst.Monolith.Books.Create.{Stands, create_order-Stands}
use go_order_management_syst.Monolith.Books.Cancel.{IsCancelled, cancel_order-Balanced}
use go_order_management_syst.Monolith.Books.Expire.{Expired, cancel_expired_order-Expired}
use go_order_management_syst.Monolith.Books.Whole.{Call, serve_all, serve_all-Balanced}
use go_order_management_syst.Monolith.Replay.{healthy, create_order_again, create_order_conflict}
use go_order_management_syst.Monolith.Life.{Operation, Trace, status_of, run_all}
use go_order_management_syst.Monolith.Life.Refines.{run_all-Trace}

abbrev shop : Tables
shop = record {
  products =
      record { id = 1; name = "tea"; description = ""; price_fen = 500; status = on_sale } ∷ [];
  inventories = record { product_id = 1; stock_quantity = 5 } ∷ [];
  orders = [];
  logs = supply_log biz_init 1 0 5 5 ∷ [];
  keys = [];
  outbox = [];
  next_order = 1;
}

shop-Balanced : Balanced shop
shop-Balanced = record { stock_logged = λ p. ground arith; supplied_there = λ p. ground arith }

abbrev open_shop : Db Tables
open_shop = record { tables = shop; faults = [] }

abbrev two_teas : CreateRequest
two_teas = record { idempotency_key = "k1"; items = record { product_id = 1; quantity = 2 } ∷ [] }

-- The digest of a list of items stands for the text of its quantities.
abbrev around : Surroundings
around = record {
  now = 1000;
  order_timeout = 60;
  order_no = "n1";
  event_id = "e1";
  digest = λ items. elim items [ [] ↦ "" | x ∷ _ ↦ if x.quantity == 2 then "two" else "other" ];
}

abbrev first : Order
first = record {
  id = 1;
  user_id = 7;
  order_no = "n1";
  total_amount_fen = 1000;
  status = pending;
  created_at = 1000;
  paid_at = none;
  completed_at = none;
  cancelled_at = none;
  items = [];
}

abbrev after_order : Db Tables
after_order = (create_order around 7 two_teas open_shop).1

places_order : create_order around 7 two_teas open_shop ≡ (ok first, after_order)
unfolding create_order create_body create_new order_lines order_line take_item finish_key statement
    query guard or_raise transaction continue create_order_row create_order_item create_stock_log
    deduct_inventory try_create_key complete_key patch_order_total create_outbox request_hash
    sort_items has_duplicate log_stock trim_space trim_left trim_right is_space byte_length
places_order = refl

-- Three teas left, and the log of the deduction.
stock_after_order :
    after_order.tables.inventories ≡ record { product_id = 1; stock_quantity = 3 } ∷ []
unfolding create_order create_body create_new order_lines order_line take_item finish_key statement
    query guard or_raise transaction continue create_order_row create_order_item create_stock_log
    deduct_inventory try_create_key complete_key patch_order_total create_outbox request_hash
    sort_items has_duplicate log_stock trim_space trim_left trim_right is_space byte_length
stock_after_order = refl

create_order-Stands_example :
    Atomic shop (λ r t. Stands 7 r t) (create_order around 7 two_teas open_shop)
create_order-Stands_example = create_order-Stands around 7 two_teas open_shop shop-Balanced

after_order-Stands : Stands 7 first after_order.tables
after_order-Stands =
    subst (Atomic shop (λ r t. Stands 7 r t)) places_order
      (create_order-Stands around 7 two_teas open_shop shop-Balanced)

cancel_order-Balanced_example :
    Atomic after_order.tables
      (λ _ t. Balanced t × IsCancelled 1 t)
      (cancel_order 2000 7 1 after_order)
cancel_order-Balanced_example = cancel_order-Balanced 2000 7 1 after_order after_order-Stands.0

cancel_expired_order-Expired_example :
    Atomic after_order.tables
      (λ _ t.
        Expired 2000 1 after_order.tables (find (is_event "e1" 1) after_order.tables.outbox) t)
      (cancel_expired_order 2000 "e1" 1 after_order)
cancel_expired_order-Expired_example =
    cancel_expired_order-Expired 2000 "e1" 1 after_order after_order-Stands.0

abbrev a_day : List Call
a_day =
    Call.add 1 4
    ∷ Call.create around 7 two_teas
    ∷ Call.create around 8 two_teas
    ∷ Call.pay 1500 7 1
    ∷ Call.expire 2000 "e1" 1
    ∷ Call.finish 3000 7 1
    ∷ []

serve_all-Balanced_example : Balanced (serve_all a_day open_shop).tables
serve_all-Balanced_example = serve_all-Balanced a_day open_shop shop-Balanced

abbrev calls : List Operation
calls = Operation.pay 1500 7 1 ∷ Operation.expire 2000 "e1" 1 ∷ Operation.finish 3000 7 1 ∷ []

run_all-Trace_example :
    Trace (status_of 1 after_order.tables) (status_of 1 (run_all calls after_order).tables)
run_all-Trace_example = run_all-Trace 1 calls after_order

request_hash-perm_example :
    request_hash around.digest
      (record { product_id = 1; quantity = 2 } ∷ record { product_id = 3; quantity = 4 } ∷ [])
    ≡ request_hash around.digest
        (record { product_id = 3; quantity = 4 } ∷ record { product_id = 1; quantity = 2 } ∷ [])
request_hash-perm_example =
    request_hash-perm around.digest
      (record { product_id = 1; quantity = 2 } ∷ record { product_id = 3; quantity = 4 } ∷ [])
      (record { product_id = 3; quantity = 4 } ∷ record { product_id = 1; quantity = 2 } ∷ [])
      (
        record { product_in_range = omega arith; quantity_in_range = omega arith },
        (record { product_in_range = omega arith; quantity_in_range = omega arith }, tt),
      )
      (Perm.swap _ _ [])

create_order_again_example :
    (o : Order) × (create_order around 7 two_teas (healthy after_order.tables)
      ≡ (ok o, healthy after_order.tables))
    × (o.id ≡ 1)
    × (o.total_amount_fen ≡ 1000)
create_order_again_example =
    create_order_again around around 7 two_teas two_teas.items open_shop after_order first
      shop-Balanced refl
      (record { product_in_range = omega arith; quantity_in_range = omega arith }, tt)
      (Perm.refl two_teas.items) refl places_order

abbrev three_teas : List ItemRequest
three_teas = record { product_id = 1; quantity = 3 } ∷ []

other_hash :
    str_eq (request_hash around.digest two_teas.items) (request_hash around.digest three_teas)
    ≡ false
unfolding request_hash sort_items
other_hash = refl

create_order_conflict_example :
    create_order around 7
      (record { idempotency_key = "k1"; items = three_teas })
      (healthy after_order.tables)
    ≡ (err order_idempotency_conflict, healthy after_order.tables)
create_order_conflict_example =
    create_order_conflict around around 7 two_teas three_teas open_shop after_order first refl
      other_hash places_order
