-- ===== src/Catalog/Tests.antt =====
-- Requests to a catalog with two products.
use go_order_management_syst.Prelude.{◌≡◌, ◌≤◌, refl, [], ◌∷◌, arith, length, drop}
use go_order_management_syst.Prelude.Text.{
  trim_space, trim_left, trim_right, is_space, byte_length, parse_positive_int, read_digits,
  read_number, parse_int, parse_id,
}
use go_order_management_syst.Database.{ok, statement, guard, continue}
use go_order_management_syst.Database.Outcome.{Outcome}
use go_order_management_syst.Web.{success}
use go_order_management_syst.Catalog.{
  Product, Tables, new_product, create_product, create_trimmed, create, get, set_status,
  update_status,
}
use go_order_management_syst.Catalog.Handlers.{
  Listed, handle_list, handle_on_sale, handle_set_status,
}
use go_order_management_syst.Catalog.Behaviour.{healthy, create-get, list_reports_size}

abbrev tea : Product
tea = record { id = 1; name = "tea"; description = ""; price_fen = 500; status = 2 }

abbrev shelf : Tables
shelf = record { products = tea ∷ []; next_id = 2 }

abbrev cup : Product
cup = record { id = 2; name = "cup"; description = "blue"; price_fen = 900; status = 2 }

abbrev with_cup : Tables
with_cup = record { products = cup ∷ tea ∷ []; next_id = 3 }

creates_cup : create " cup " "blue" 900 (healthy shelf) ≡ (ok cup, healthy with_cup)
unfolding create create_trimmed create_product guard statement continue trim_space trim_left
    trim_right is_space byte_length
creates_cup = refl

create-get_example :
    (cup ≡ record (new_product (trim_space " cup ") (trim_space "blue") 900) { id = cup.id })
    × (get 2 (healthy with_cup) ≡ (ok cup, healthy with_cup))
create-get_example =
    create-get " cup " "blue" 900 (healthy shelf) (healthy with_cup) cup creates_cup

puts_on_sale : handle_on_sale "1" (healthy with_cup) ≡ (
  success 200 (1, 1),
  healthy (record with_cup { products = cup ∷ record tea { status = 1 } ∷ [] }),
)
unfolding handle_on_sale handle_set_status parse_id parse_int read_number read_digits set_status
    update_status guard statement continue
puts_on_sale = refl

parses_500 : parse_positive_int "500" 20 ≡ 500
unfolding parse_positive_int parse_int read_number read_digits
parses_500 = refl

list_reports_size_example :
    (r : Listed) × (handle_list drop "" "1" "500" (healthy with_cup)
      ≡ (success 200 r, healthy with_cup))
    × (r.page_size ≡ 500)
    × (length r.products ≤ 20)
list_reports_size_example = list_reports_size drop "1" "500" 500 with_cup parses_500 (omega arith)
