-- ===== src/Waiters/Orders/Tests.antt =====
-- Runs of the waiters' operations, and the theorem at such a run.
use alpha_pos_local.Base.{
  ℕ, ◌==◌, ◌≡◌, refl, false, Option, none, some, List, [], ◌∷◌, map, update_where, if◌then◌else◌,
  err,
}
use alpha_pos_local.Base.Int.{pos, ◌+ℤ◌, ◌-ℤ◌}
use alpha_pos_local.Base.Text.{Text, codes, text_eq}
use alpha_pos_local.Base.Sorting.{insert_by, sort_by}
use alpha_pos_local.Base.Tables.{row}
use alpha_pos_local.Couriers.Dispatch.Store.{OrderStatus, preparing, canceled}
use alpha_pos_local.Customers.Orders.Rows.{
  Order, table_elsewhere, not_serving, order_row, item_row, save_order, save_items, notify,
}
use alpha_pos_local.Customers.Orders.Parts.{
  recompute, totals, discounts_of, recomputed, recalculate_total, answered, adjust_order_stock,
  transition, apply_order_stock_transition, stamp_ready, stamp_item,
}
use alpha_pos_local.Customers.Orders.Create.{
  Fresh, quantity_of, times, total_of, read_type, new_item, new_items, any_kitchen_item,
  stock_items,
}
use alpha_pos_local.Customers.Orders.Edit.{above_zero, put_item, reopen_order}
use alpha_pos_local.Customers.Orders.Tests.{shop, shop-IsSound, order_of, item_of}
use alpha_pos_local.Waiters.Orders.Rows.{
  TableStatus, available, occupied, Table, Floor, WaiterHost, owned_order, set_table,
}
use alpha_pos_local.Waiters.Orders.Create.{
  key, Request, clean, lines_of, find_place, find_table, seat, new_order_row, placed, check_request,
  create_order,
}
use alpha_pos_local.Waiters.Orders.Edit.{
  editable, add_item, update_item, after_removal, remove_item,
}
use alpha_pos_local.Waiters.Orders.Status.{
  readied, mark_ready, request_payment, refund_paid, cancel_order,
}
use alpha_pos_local.Waiters.Orders.Tables.{update_table_status}
use alpha_pos_local.Waiters.Orders.Calls.{Call, serve, after, serve_all}
use alpha_pos_local.Waiters.Orders.Others.{serve_all-others}

-- What a test has to compute with.
waiter_runs : Unit {0}
unfolding save_order save_items notify recompute totals discounts_of recomputed recalculate_total
    answered adjust_order_stock transition apply_order_stock_transition stamp_ready stamp_item
    quantity_of times total_of read_type new_item new_items any_kitchen_item stock_items above_zero
    put_item reopen_order owned_order set_table clean lines_of find_place find_table seat
    new_order_row placed check_request create_order editable add_item update_item after_removal
    remove_item readied mark_ready request_payment refund_paid cancel_order update_table_status
    serve serve_all text_eq insert_by sort_by ◌+ℤ◌ ◌-ℤ◌
waiter_runs = tt

abbrev table_of : ℕ → List Table → Option Table
table_of k tables = row (λ t. t.pk) k tables

abbrev set_status : ℕ → TableStatus → List Table → Option (List Table)
set_status k status tables = elim (table_of k tables) [
  | none ↦ none
  | some t ↦ some (update_where (λ t. t.pk == k) (λ t. record t { status = status }) tables)
]

abbrev read_status : Text → Option TableStatus
read_status t =
    if text_eq t (codes "AVAILABLE")
    then some available
    else if text_eq t (codes "OCCUPIED")
    then some occupied
    else none

abbrev hall_host : WaiterHost
hall_host = record {
  core = shop 200;
  is_waiter = λ k. k == 4;
  get_table = table_of;
  update_status = set_status;
  read_table_status = read_status;
}

abbrev theirs : Order
theirs = order_of 1 preparing false none

abbrev floor : Floor
floor = record {
  core = record {
    orders = theirs ∷ [];
    items = item_of 10 1 none ∷ [];
    discounts = [];
    assignments = [];
    stock = [];
    refunds = [];
    outbox = [];
  };
  requests = [];
  tables =
      record { pk = 1; place_id = some 9; status = available }
      ∷ record { pk = 2; place_id = some 8; status = available }
      ∷ [];
}

abbrev fresh : Fresh
fresh = record { order_key = 5; item_key = λ n. n; created = 200; now = 201 }

abbrev at_table : ℕ → Request
at_table t = record {
  waiter = 4;
  items = record { product_id = some 1; quantity = none; detail = none } ∷ [];
  place_id = key 9;
  table_id = key t;
  order_type = codes "HALL";
  phone_number = none;
  description = none;
}

-- A waiter takes an order, asks for the payment, serves it and cancels it, and tries to change the
-- order of another.
abbrev shift : List Call
shift =
    Call.create fresh (at_table 1)
    ∷ Call.cancel 1 4
    ∷ Call.add 40 202 1 1 (pos 2) 4
    ∷ Call.add 41 203 5 2 (pos 2) 4
    ∷ Call.request 204 5 4
    ∷ Call.request 205 5 4
    ∷ Call.ready 206 5 4
    ∷ Call.cancel 5 4
    ∷ []

abbrev status_at : ℕ → Floor → Option OrderStatus
status_at k f = elim (order_row k f.core.orders) [ none ↦ none | some o ↦ some o.status ]

taken :
    map
      (λ t. t.status)
      (after (serve hall_host (Call.create fresh (at_table 1)) floor) floor).tables
    ≡ occupied ∷ available ∷ []
unfolding waiter_runs
taken = refl

freed : map (λ t. t.status) (serve_all hall_host shift floor).tables ≡ available ∷ available ∷ []
unfolding waiter_runs
freed = refl

requested_once :
    (serve_all hall_host shift floor).requests ≡ record { order_id = 5; requested_at = 204 } ∷ []
unfolding waiter_runs
requested_once = refl

cancelled : status_at 5 (serve_all hall_host shift floor) ≡ some canceled
unfolding waiter_runs
cancelled = refl

elsewhere : serve hall_host (Call.create fresh (at_table 2)) floor ≡ err table_elsewhere
unfolding waiter_runs
elsewhere = refl

not_theirs :
    serve hall_host
      (Call.set_table_status 1 (codes "OCCUPIED") (some 4) (some (codes "WAITER")))
      floor
    ≡ err not_serving
unfolding waiter_runs
not_theirs = refl

serve_all-others_example :
    (order_row 1 (serve_all hall_host shift floor).core.orders ≡ some theirs)
    × (item_row 10 (serve_all hall_host shift floor).core.items ≡ some (item_of 10 1 none))
serve_all-others_example =
    serve_all-others hall_host (shop-IsSound 200) 4 shift floor 1 10 theirs (item_of 10 1 none) refl
      refl refl refl
      (
        (refl, refl),
        (
          (refl, refl),
          (
            (refl, refl),
            ((refl, refl), ((refl, refl), ((refl, refl), ((refl, refl), ((refl, refl), tt))))),
          ),
        ),
      )
