-- ===== src/Ordering/Creation/Tests.antt =====
-- Runs of `Create`.
use Prim.Native.String.{String}
use go_order_management_syst.Prelude.{◌≡◌, refl, true, false, List, Bool, [], ◌∷◌, none, map}
use go_order_management_syst.Prelude.Int64.{Int64}
use go_order_management_syst.Database.{
  Db, ok, err, continue, guard, handle, query, or_raise, transaction, statement,
}
use go_order_management_syst.Prelude.Text.{trim_space, trim_left, trim_right, is_space, byte_length}
use go_order_management_syst.Ordering.Payment.{load_for_transition}
use go_order_management_syst.Ordering.Store.{
  Order, OrderStatus, reserving, pending, Tables, unreachable, trigger, update_order,
}
use go_order_management_syst.Ordering.Items.{
  Catalog, resolve_items, add_quantity, collect, price_items, check_item,
}
use go_order_management_syst.Ordering.Creation.{
  CreateRequest, Inventory, create_order, end_creation, find_by_idempotency, create_missing,
  create_resolved, insert_new, insert_body, insert_order, insert_items, accept_body,
  finish_creation, insert_outbox,
}

abbrev empty_db : List Bool → Db Tables
empty_db faults = record {
  tables = record { orders = []; outbox = []; tasks = []; next_order = 1; next_task = 1 };
  faults = faults;
}

abbrev shelf : Catalog
shelf id = ok (record { id = id; name = "tea"; price_fen = 250; status = 1 })

abbrev stockroom : Inventory
stockroom = record { reserve = λ id r items. ok r; release = λ r. err unreachable }

abbrev two_teas : CreateRequest
two_teas = record {
  idempotency_key = " key ";
  items = record { product_id = 3; quantity = 2 } ∷ [];
}

abbrev totals : Db Tables → List (OrderStatus × Int64 × String)
totals db = map {A = Order} (λ o. (o.status, o.total_fen, o.idempotency_key)) db.tables.orders

creates_order :
    totals (create_order 10 30 shelf stockroom "r1" 9 two_teas (empty_db [])).1
    ≡ (pending, 500, "key") ∷ []
unfolding create_order continue guard trim_space trim_left trim_right is_space byte_length handle
    find_by_idempotency query or_raise create_missing create_resolved resolve_items add_quantity
    collect price_items check_item insert_new transaction insert_body insert_order insert_items
    statement accept_body end_creation finish_creation insert_outbox load_for_transition trigger
    update_order
creates_order = refl

abbrev reserving_order : Order
reserving_order = record {
  id = 1;
  user_id = 9;
  status = reserving;
  total_fen = 500;
  reservation_id = "r1";
  idempotency_key = "key";
  failure_reason = none;
  items = [];
}

abbrev reserving_db : Db Tables
reserving_db = record (empty_db (false ∷ true ∷ [])) {
  tables = record {
    orders = reserving_order ∷ [];
    outbox = [];
    tasks = [];
    next_order = 2;
    next_task = 1;
  };
}
