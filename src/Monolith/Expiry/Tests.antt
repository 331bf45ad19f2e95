-- ===== src/Monolith/Expiry/Tests.antt =====
-- Two events of which one is due.
use go_order_management_syst.Prelude.{◌≡◌, refl, false, [], ◌∷◌, none, arith}
use go_order_management_syst.Prelude.Text.{trim_space}
use go_order_management_syst.Database.Ensures.{All}
use go_order_management_syst.Monolith.Store.{TimeoutOutbox, Tables}
use go_order_management_syst.Monolith.Expiry.{acknowledged, is_valid, is_due, publish_batch}
use go_order_management_syst.Monolith.Expiry.Publishes.{healthy, publish_batch_empties}

abbrev due_event : TimeoutOutbox
due_event = record {
  event_id = "a";
  order_id = 7;
  user_id = 3;
  timeout_at = 60;
  published_at = none;
  attempts = 0;
  next_attempt_at = 40;
}

abbrev later_event : TimeoutOutbox
later_event = record due_event { event_id = "b"; order_id = 8; next_attempt_at = 90 }

abbrev tables : Tables
tables = record {
  products = [];
  inventories = [];
  orders = [];
  logs = [];
  keys = [];
  outbox = later_event ∷ due_event ∷ [];
  next_order = 9;
}

publish_batch_empties_example :
    (t' : Tables) × (publish_batch 50 10 20 (λ e. acknowledged) (healthy tables)
      ≡ (none, healthy t'))
    × All (λ r. is_due 50 r ≡ false) t'.outbox
unfolding is_valid trim_space
publish_batch_empties_example =
    publish_batch_empties 50 10 20 (λ e. acknowledged) tables (λ e. refl) (refl, tt)
      ((refl, tt), (tt, tt)) (omega arith)
