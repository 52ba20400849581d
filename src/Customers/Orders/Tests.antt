-- ===== src/Customers/Orders/Tests.antt =====
-- Runs of the operations on orders, and the theorems at those runs.
use alpha_pos_local.Base.{
  ℕ, ◌+◌, ◌≡◌, refl, sym, ◌∙◌, subst, Bool, true, false, not, ◌&&◌, Option, none, some, List, [],
  ◌∷◌, ◌==◌, find, inl, inr, is_some, Outcome, ok, err, if◌then◌else◌, arith, map, ap, if_cases,
  ◌⊎◌,
}
use alpha_pos_local.Base.Int.{ℤ, pos, ◌+ℤ◌, ◌-ℤ◌}
use alpha_pos_local.Base.Text.{codes, text_eq, strip, lstrip, is_space}
use alpha_pos_local.Base.Sorting.{insert_by, sort_by}
use alpha_pos_local.Base.Number.{upper, upper_char}
use alpha_pos_local.Base.Tables.{row_where, row_where-found, row-key}
use alpha_pos_local.Couriers.Dispatch.Store.{
  OrderStatus, preparing, order_ready, canceled, hall, assigned,
}
use alpha_pos_local.Customers.Checkout.Orders.{Actor, cashier, owns}
use alpha_pos_local.Customers.Orders.Rows.{
  Order, Item, Product, Store, Host, responds, StockSettings, order_row, item_row, OrderError,
  save_order, save_items, notify, has_active_assignment,
}
use alpha_pos_local.Customers.Orders.Parts.{
  recompute, totals, discounts_of, recomputed, recalculate_total, answered, adjust_order_stock,
  transition, apply_order_stock_transition, stamp_ready, all_ready, check_and_update_ready,
  stamp_item,
}
use alpha_pos_local.Customers.Orders.Create.{
  quantity_of, times, read_line, read_lines, total_of, read_type, new_order_row, new_item,
  new_items, any_kitchen_item, stock_items, placed, check_request, place_order, create_order,
}
use alpha_pos_local.Customers.Orders.Edit.{
  editable, Quantity, above_zero, put_item, reopen_order, add_item_to_order, update_order_item,
  after_removal, remove_item_from_order,
}
use alpha_pos_local.Customers.Orders.Spelling.{
  to_api_status, from_api_status, allowed_status, lstrip_chars, strip_chars, split_commas,
  read_parts, parse_statuses,
}
use alpha_pos_local.Customers.Orders.Status.{
  owned, refund_paid, write_status, change_status, move_status, update_order_status,
  update_order_type,
}
use alpha_pos_local.Customers.Orders.Kitchen.{
  notify_ready, mark_item_ready, unmark_item_ready, mark_order_ready,
}
use alpha_pos_local.Customers.Orders.Details.{open_order, set_person, assign_courier}
use alpha_pos_local.Customers.Orders.Calls.{
  Call, serve, after, IsSound, Reaches, stay, serves, late_unready, serve_all,
}
use alpha_pos_local.Customers.Orders.Cooked.{AllReady, IsCooked, Cooked, Linked}
use alpha_pos_local.Customers.Orders.Balanced.{EditedAt}
use alpha_pos_local.Customers.Orders.Sold.{OrderKept, LineKept}
use alpha_pos_local.Customers.Orders.Promises.{
  serve_apart, canceled_terminal, paid_frozen, ready_complete, edit_balanced,
}
use alpha_pos_local.Customers.Orders.Spelled.{is_done, is_off, spelling, join_api, parse-join}
use alpha_pos_local.Customers.Orders.Retried.{mark_order_ready-again}

-- What a test has to compute with.
orders_runs : Unit {0}
unfolding save_order save_items notify has_active_assignment recompute totals discounts_of
    recomputed recalculate_total answered adjust_order_stock transition apply_order_stock_transition
    stamp_ready all_ready check_and_update_ready stamp_item quantity_of times read_line read_lines
    total_of read_type new_order_row new_item new_items any_kitchen_item stock_items placed
    check_request place_order create_order editable above_zero put_item reopen_order
    add_item_to_order update_order_item after_removal remove_item_from_order to_api_status
    from_api_status allowed_status lstrip_chars strip_chars split_commas read_parts parse_statuses
    owned refund_paid write_status change_status move_status update_order_status update_order_type
    notify_ready mark_item_ready unmark_item_ready mark_order_ready open_order set_person
    assign_courier owns text_eq strip lstrip is_space upper upper_char insert_by sort_by join_api
    ◌+ℤ◌ ◌-ℤ◌ serve_all
orders_runs = tt

abbrev live_row : ℕ → List Order → Option Order
live_row k orders = row_where (λ o. o.pk) k (λ o. not o.is_deleted) orders

abbrev first_of : (item order : ℕ) → List Item → Option Item
first_of item order items = row_where (λ i. i.pk) item (λ i. i.order_id == order) items

abbrev unready_of : (order product : ℕ) → Item → Bool
unready_of order product i =
    i.order_id == order && i.product_id == product && not i.is_deleted && not (is_some i.ready_at)

abbrev existing_of : (order product : ℕ) → List Item → Option Item
existing_of order product items = elim (find (unready_of order product) items) [
  | none ↦ none
  | some i ↦ row_where (λ i. i.pk) i.pk (unready_of order product) items
]

abbrev sum_live : ℕ → List Item → ℤ
sum_live order [] = pos 0
sum_live order (i ∷ items) =
    let rest = sum_live order items in
    if i.order_id == order && not i.is_deleted then times i.quantity i.price +ℤ rest else rest

abbrev soup : Product
soup = record { pk = 1; price = pos 3_000_000; is_instant = false }

abbrev cola : Product
cola = record { pk = 2; price = pos 800_000; is_instant = true }

abbrev product_of : ℕ → Option Product
product_of k = if k == 1 then some soup else if k == 2 then some cola else none

abbrev settings : StockSettings
settings = record {
  stock_enabled = true;
  auto_deduct_on_sale = true;
  reserve_on_order_create = true;
  deduct_on_order_status = order_ready;
}

-- A shop whose stock services answer with a status, and that takes 5 000 so'm off.
abbrev pub shop : (status : ℕ) → Host
shop status = record {
  get_order = live_row;
  first_item = first_of;
  get_existing_unready = existing_of;
  calculate_order_total = sum_live;
  calculate_discount = λ rule items applied. pos 500_000;
  product = product_of;
  listed_product = product_of;
  is_user = λ k. true;
  is_cashier = λ k. true;
  is_delivery_person = λ k. true;
  is_place = λ k. true;
  is_table = λ k. true;
  has_active_shift = λ k. true;
  stock_settings = some settings;
  stock_location = some 1;
  stock_answer = λ history c. responds status;
  refund_accepted = λ refunds r. true;
  normalize_uz_phone = λ t. [];
}

first_sound :
    (item order : ℕ) (items : List Item) (i : Item)
    → first_of item order items ≡ some i
    → (item_row i.pk items ≡ some i) × (i.order_id ≡ order)
first_sound item order items i e =
    let (found, own) = row_where-found (λ i. i.pk) item (λ i. i.order_id == order) items i e in
    let key = row-key (λ i. i.pk) item items i found in
    (subst (λ (k : ℕ). item_row k items ≡ some i) (sym key) found, ground arith)

existing_sound :
    (order product : ℕ) (items : List Item) (i : Item)
    → existing_of order product items ≡ some i
    → (item_row i.pk items ≡ some i) × (i.order_id ≡ order)
existing_sound order product items i e = from (find (unready_of order product) items) e
  where
    from :
        (o : Option Item)
        → (elim o as (λ x. Option Item) [
          | none ↦ none
          | some r ↦ row_where (λ i. i.pk) r.pk (unready_of order product) items
        ])
          ≡ some i
        → (item_row i.pk items ≡ some i) × (i.order_id ≡ order)
    from none e = absurd (ground arith)
    from (some r) e =
        let (found, own) = row_where-found (λ i. i.pk) r.pk (unready_of order product) items i e in
        let key = row-key (λ i. i.pk) r.pk items i found in
        (subst (λ (k : ℕ). item_row k items ≡ some i) (sym key) found, ground arith)

pub shop-IsSound : (status : ℕ) → IsSound (shop status)
shop-IsSound status = record {
  gets = λ k orders o e. (row_where-found (λ o. o.pk) k (λ o. not o.is_deleted) orders o e).0;
  gets_first = first_sound;
  gets_existing = existing_sound;
}

abbrev pub order_of : ℕ → OrderStatus → Bool → Option ℕ → Order
order_of k status is_paid ready_at = record {
  pk = k;
  user_id = some 4;
  cashier_id = some 7;
  order_type = hall;
  status = status;
  is_paid = is_paid;
  is_deleted = false;
  created_at = 100;
  ready_at = ready_at;
  subtotal = pos 6_000_000;
  discount_amount = pos 500_000;
  total_amount = pos 5_500_000;
  phone_number = none;
  delivery_address = [];
  description = none;
  delivery_person = none;
  place = none;
  table = none;
  customer_id = none;
}

abbrev pub item_of : (k order : ℕ) → Option ℕ → Item
item_of k order ready_at = record {
  pk = k;
  order_id = order;
  product_id = 1;
  detail = none;
  quantity = 2;
  price = pos 3_000_000;
  ready_at = ready_at;
  is_deleted = false;
}

-- An order in the kitchen, a ready one that is paid, and a cancelled one.
abbrev cooking : Order
cooking = order_of 1 preparing false none

abbrev served : Order
served = order_of 2 order_ready true (some 150)

abbrev gone : Order
gone = order_of 3 canceled false none

abbrev kitchen : Store
kitchen = record {
  orders = cooking ∷ served ∷ gone ∷ [];
  items = item_of 10 1 none ∷ item_of 20 2 (some 150) ∷ item_of 30 3 none ∷ [];
  discounts =
      record { pk = 1; order_id = 1; rule = 9; created_at = 100; discount_amount = pos 0 } ∷ [];
  assignments = [];
  stock = [];
  refunds = [];
  outbox = [];
}

abbrev staff : Actor
staff = record { cashier_id = some 7; user_id = some 7; role = cashier }

-- A live delivery clears the legacy courier of the order that is saved.
abbrev dispatched : Store
dispatched = record kitchen {
  orders = record cooking { delivery_person = some 4 } ∷ [];
  assignments =
      record {
        order_id = 1;
        courier_id = some 5;
        step = assigned;
        fee = pos 0;
        assigned_at = some 120;
        accepted_at = none;
        ready_at = none;
        picked_at = none;
        delivered_at = none;
        expires_at = none;
        declined_reason = [];
        address = record {
          addr_text = [];
          addr_landmark = [];
          addr_lat = none;
          addr_lng = none;
          distance_km = none;
        };
      }
      ∷ [];
}

legacy_cleared :
    order_row 1 (save_order 1 (stamp_ready 150) dispatched).orders
    ≡ some (record cooking { status = order_ready; ready_at = some 150; delivery_person = none })
unfolding orders_runs
legacy_cleared = refl

abbrev one_soup : Call
one_soup = Call.add_item 40 200 1 1 (Quantity.integer (pos 1)) staff

abbrev one_cola : Call
one_cola = Call.add_item 40 200 1 2 (Quantity.integer (pos 1)) staff

abbrev cook : Call
cook = Call.item_ready 200 201 1 10 staff

abbrev unmark : Call
unmark = Call.item_unready 2 20 staff

abbrev cancel : Call
cancel = Call.set_status 300 2 (some (codes " cancelled")) staff (codes "late")

abbrev cancel_again : Call
cancel_again = Call.set_status 300 3 (some (codes "CANCELLED")) staff []

abbrev bring : Call
bring = Call.ready_order 210 1 staff

-- What a store holds of an order.
abbrev state_of : ℕ → Outcome OrderError Store → Option (OrderStatus × Option ℕ × ℤ)
state_of k (ok s) = elim (order_row k s.orders) [
  | none ↦ none
  | some o ↦ some (o.status, o.ready_at, o.total_amount)
]
state_of k (err e) = none

add_soup : state_of 1 (serve (shop 200) one_soup kitchen) ≡ some (preparing, none, pos 8_500_000)
unfolding orders_runs
add_soup = refl

add_cola : state_of 1 (serve (shop 200) one_cola kitchen) ≡ some (preparing, none, pos 6_300_000)
unfolding orders_runs
add_cola = refl

cooked_last :
    state_of 1 (serve (shop 200) cook kitchen) ≡ some (order_ready, some 201, pos 5_500_000)
unfolding orders_runs
cooked_last = refl

cancelled_paid :
    state_of 2 (serve (shop 200) cancel kitchen) ≡ some (canceled, some 150, pos 5_500_000)
unfolding orders_runs
cancelled_paid = refl

no_stock : serve (shop 500) one_soup kitchen ≡ err (OrderError.stock_rejected 500)
unfolding orders_runs
no_stock = refl

cancel_canceled : serve (shop 500) cancel_again kitchen ≡ ok kitchen
unfolding orders_runs
cancel_canceled = refl

last_line :
    state_of 1 (serve (shop 200) (Call.remove_item 200 1 10 staff) kitchen)
    ≡ some (preparing, none, pos 5_500_000)
unfolding orders_runs
last_line = refl

filter_read :
    parse_statuses (some (codes "[ready, 'Cancelled',, preparing]"))
    ≡ some (codes "READY" ∷ codes "CANCELED" ∷ codes "PREPARING" ∷ [])
unfolding orders_runs
filter_read = refl

-- The kitchen after two calls and a late one: it takes back item 10 of order 1, which became ready since
-- the order was read.
abbrev later : Store
later = after (serve (shop 200) cook kitchen) kitchen

abbrev unmarked : Store
unmarked = after (unmark_item_ready (shop 200) 1 10 staff kitchen later) later

abbrev end : Store
end = after (serve (shop 200) unmark unmarked) unmarked

abbrev overlaps : ℕ → Bool
overlaps k = k == 1

abbrev three_calls : Reaches overlaps kitchen end
three_calls = serves (shop 200) cook (shop-IsSound 200) tt (
    late_unready (shop 200) 1 10 staff kitchen (shop-IsSound 200) refl
      (serves (shop 200) unmark (shop-IsSound 200) tt stay))

-- The late call leaves a ready order with an item that is not ready.
still_ready : map (λ o. o.status) unmarked.orders ≡ order_ready ∷ order_ready ∷ canceled ∷ []
unfolding orders_runs
still_ready = refl

not_cooked : map (λ i. i.ready_at) unmarked.items ≡ none ∷ some 150 ∷ none ∷ []
unfolding orders_runs
not_cooked = refl

-- A late `mark_item_ready` makes an order ready that was cancelled since the order was read.
abbrev dropped : Store
dropped =
    after (serve (shop 200) (Call.set_status 300 1 (some (codes "CANCELLED")) staff []) kitchen)
      kitchen

revived :
    map
      (λ o. o.status)
      (after (mark_item_ready (shop 200) 310 311 1 10 staff kitchen dropped) dropped).orders
    ≡ order_ready ∷ order_ready ∷ canceled ∷ []
unfolding orders_runs
revived = refl

abbrev soup_added : Store
soup_added = after (serve (shop 200) one_soup kitchen) kitchen

serve_apart_example :
    (order_row 2 soup_added.orders ≡ order_row 2 kitchen.orders)
    × (item_row 20 soup_added.items ≡ some (item_of 20 2 (some 150)))
unfolding orders_runs
serve_apart_example =
    serve_apart (shop 200) one_soup kitchen soup_added 2 20 (item_of 20 2 (some 150))
      (shop-IsSound 200) refl (λ e. absurd (ground arith)) refl refl

canceled_terminal_example :
    (order_row 3 end.orders ≡ some gone) × (item_row 30 end.items ≡ some (item_of 30 3 none))
canceled_terminal_example =
    canceled_terminal overlaps kitchen end 3 30 gone (item_of 30 3 none) refl three_calls refl refl
      refl refl

paid_frozen_example :
    OrderKept served (order_row 2 end.orders)
    × LineKept (item_of 20 2 (some 150)) (item_row 20 end.items)
paid_frozen_example =
    paid_frozen overlaps kitchen end 2 20 served (item_of 20 2 (some 150)) three_calls refl refl
      refl refl

edit_balanced_example : EditedAt (shop 200) 1 soup_added
unfolding orders_runs
edit_balanced_example =
    edit_balanced (shop 200) one_soup kitchen soup_added (shop-IsSound 200) refl refl

parse-join_example :
    parse_statuses (some (join_api is_off (is_done ∷ [])))
    ≡ some (map spelling (is_off ∷ is_done ∷ []))
parse-join_example = parse-join is_off (is_done ∷ [])

mark_order_ready-again_example :
    mark_order_ready (shop 200) 500 1 staff (after (serve (shop 200) bring kitchen) kitchen)
    ≡ ok (after (serve (shop 200) bring kitchen) kitchen)
unfolding orders_runs
mark_order_ready-again_example =
    mark_order_ready-again (shop 200) (shop-IsSound 200) 210 500 1 staff kitchen
      (after (serve (shop 200) bring kitchen) kitchen) (order_of 1 order_ready false (some 210))
      refl refl

abbrev order_soup : Call
order_soup =
    Call.create (record { order_key = 4; item_key = λ n. 50 + n; created = 300; now = 301 })
      (record {
        user_id = 4;
        items = record { product_id = some 1; quantity = some (pos 2); detail = none } ∷ [];
        order_type = codes "HALL";
        phone_number = none;
        description = none;
        delivery_address = none;
        cashier_id = some 7;
        delivery_person_id = none;
        place_id = none;
        table_id = none;
        customer_id = none;
      })

-- With stock, all but the last are accepted and change something.
abbrev sales : List Call
sales = order_soup ∷ one_soup ∷ cancel ∷ cancel_again ∷ []

sold :
    map (λ o. o.status) (serve_all (shop 200) sales kitchen).orders
    ≡ preparing ∷ canceled ∷ canceled ∷ preparing ∷ []
unfolding orders_runs
sold = refl

-- The rows of the kitchen, one by one.
kitchen_orders :
    (k : ℕ) (o : Order)
    → order_row k kitchen.orders ≡ some o
    → (cooking ≡ o) ⊎ ((served ≡ o) ⊎ (gone ≡ o))
kitchen_orders k o e = elim (if_cases (1 == k) (some cooking) _ e) [
  | inl (t, d) ↦ inl (ground arith)
  | inr (f, d) ↦ elim (if_cases (2 == k) (some served) _ d) [
    | inl (t, d') ↦ inr (inl (ground arith))
    | inr (f, d') ↦ elim (if_cases (3 == k) (some gone) _ d') [
      | inl (t, c) ↦ inr (inr (ground arith))
      | inr (f, c) ↦ absurd (ground arith)
    ]
  ]
]

kitchen_items :
    (j : ℕ) (i : Item)
    → item_row j kitchen.items ≡ some i
    → (item_of 10 1 none ≡ i) ⊎ ((item_of 20 2 (some 150) ≡ i) ⊎ (item_of 30 3 none ≡ i))
kitchen_items j i e = elim (if_cases (10 == j) (some (item_of 10 1 none)) _ e) [
  | inl (t, d) ↦ inl (ground arith)
  | inr (f, d) ↦ elim (if_cases (20 == j) (some (item_of 20 2 (some 150))) _ d) [
    | inl (t, d') ↦ inr (inl (ground arith))
    | inr (f, d') ↦ elim (if_cases (30 == j) (some (item_of 30 3 none)) _ d') [
      | inl (t, c) ↦ inr (inr (ground arith))
      | inr (f, c) ↦ absurd (ground arith)
    ]
  ]
]

abbrev on_two : ℕ → Bool
on_two k = k == 2

kitchen-Cooked : Cooked on_two kitchen
kitchen-Cooked k o prompt e = elim (kitchen_orders k o e) [
  | inl d ↦ subst (λ (x : Order). IsCooked x kitchen.items) d (λ r. absurd (ground arith))
  | inr (inl d) ↦ subst (λ (x : Order). IsCooked x kitchen.items) d (λ r. (refl, served_items))
  | inr (inr d) ↦ subst (λ (x : Order). IsCooked x kitchen.items) d (λ r. absurd (ground arith))
]
  where
    served_items : AllReady 2 kitchen.items
    served_items j i f own live = elim (kitchen_items j i f) [
      | inl d ↦ absurd (let q : 1 ≡ 2 = ap (λ (x : Item). x.order_id) d ∙ own in ground arith)
      | inr (inl d) ↦ subst (λ (x : Item). is_some x.ready_at ≡ true) d refl
      | inr (inr d) ↦ absurd (let q : 3 ≡ 2 = ap (λ (x : Item). x.order_id) d ∙ own in ground arith)
    ]

kitchen-Linked : Linked on_two kitchen
kitchen-Linked j i prompt f = elim (kitchen_items j i f) [
  | inl d ↦ subst (λ (x : Item). is_some (order_row x.order_id kitchen.orders) ≡ true) d refl
  | inr (inl d) ↦ subst (λ (x : Item). is_some (order_row x.order_id kitchen.orders) ≡ true) d refl
  | inr (inr d) ↦ subst (λ (x : Item). is_some (order_row x.order_id kitchen.orders) ≡ true) d refl
]

-- A late call of order 2, and then order 1 becomes ready.
abbrev untimely : Store
untimely = after (unmark_item_ready (shop 200) 2 20 staff kitchen kitchen) kitchen

abbrev cooked_end : Store
cooked_end = after (serve (shop 200) cook untimely) untimely

ready_complete_example : (is_some {A = ℕ} (some 201) ≡ true) × (is_some {A = ℕ} (some 200) ≡ true)
unfolding orders_runs
ready_complete_example =
    ready_complete on_two kitchen cooked_end 1 10 (order_of 1 order_ready false (some 201))
      (item_of 10 1 (some 200)) refl kitchen-Cooked kitchen-Linked
      (late_unready (shop 200) 2 20 staff kitchen (shop-IsSound 200) refl
        (serves (shop 200) cook (shop-IsSound 200) tt stay))
      refl refl refl refl refl
